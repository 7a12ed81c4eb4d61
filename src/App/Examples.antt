-- ===== src/App/Examples.antt =====
-- An app whose key is "k" and whose secret is "s".
use pylon.Prelude.{◌≡◌, refl, none, ◌++◌}
use pylon.Prelude.Results.{ok}
use pylon.Protocol.SocketId.{Str}
use pylon.Protocol.Text.{ascii}
use pylon.Auth.{verify_channel, verify_user, channel_signature, user_signature}
use pylon.App.{validate, is_blank, behind_space}
use pylon.App.Keys.{validate-verify}
use pylon.Session.Samples.{sample_app}

abbrev spell : Str → Str → Str
spell secret message = secret ++ message

sample_valid : validate sample_app ≡ ok tt
unfolding validate is_blank ascii behind_space
sample_valid = refl

validate-verify_example :
    (verify_channel spell (ascii "k") (ascii "s") (ascii "7.7") (ascii "private-a") none (
        ascii "k"
        ++ (ascii ":"
            ++ channel_signature spell (ascii "s") (ascii "7.7") (ascii "private-a") none))
      ≡ ok tt)
    × (verify_user spell
          (ascii "k")
          (ascii "s")
          (ascii "7.7")
          (ascii "{}")
          (ascii "k" ++ (ascii ":" ++ user_signature spell (ascii "s") (ascii "7.7") (ascii "{}")))
        ≡ ok tt)
validate-verify_example =
    validate-verify spell sample_app (ascii "7.7") (ascii "private-a") none (ascii "{}")
      sample_valid
