-- ===== src/Tests/Access.antt =====
-- Credentials, password fields and string helpers at concrete inputs.
use raptor_common.Base.{◌<◌, true, some, ◌≡◌, refl, arith, length, Bytes, codes}
use raptor_common.Http.Base64.{encode, base64_decode-encode}
use raptor_common.Http.{base64_decode}
use raptor_common.Shadow.Field.{lines_fit, IsFieldOf}
use raptor_common.Shadow.Hash.{shadow_hash_sound}
use raptor_common.Shadow.{
  set, count_dollars, usable_hash, contains, until_either, field_at, field_loop, passwd_field,
  shadow_state, shadow_hash,
}
use raptor_common.Config.Load.{fgets}
use raptor_common.Text.{starts_with, strlcpy}

abbrev joe : Bytes
joe = codes "joe"

abbrev request : Bytes
request = codes "GET / HTTP/1.1\nauthorization: basic am9lOnB3\n\n"

base64_decode-encode_example : base64_decode (encode (codes "joe:pw")) 255 ≡ some (codes "joe:pw")
base64_decode-encode_example =
    base64_decode-encode (codes "joe:pw") 255
      (omega arith, (omega arith, (omega arith, (omega arith, (omega arith, (omega arith, tt))))))
      (omega arith)

abbrev shadow_file : Bytes
shadow_file = codes "root:*:1\njoe:$6$ab$cd:19000\n"

joe_has_hash : shadow_hash (some shadow_file) joe 128 ≡ some (codes "$6$ab$cd")
unfolding shadow_hash passwd_field field_loop field_at until_either contains usable_hash
    count_dollars fgets starts_with strlcpy
joe_has_hash = refl

shadow_lines : lines_fit 510 510 shadow_file ≡ true
unfolding lines_fit
shadow_lines = refl

shadow_hash_sound_example :
    IsFieldOf joe (codes "$6$ab$cd") shadow_file
    × (shadow_state (some shadow_file) joe ≡ set)
    × (length (codes "$6$ab$cd") < 128)
shadow_hash_sound_example =
    shadow_hash_sound shadow_file joe 128 (codes "$6$ab$cd") shadow_lines joe_has_hash
