-- ===== src/Signing/Tests.antt =====
-- Tests of signing, and its theorems at a concrete scheme.
use tarmac.Prelude.{◌≡◌, refl, true, some, [], ◌∷◌}
use tarmac.Json.{Json, dict, str}
use tarmac.Signing.{hex, verify_body, sign_body, public_hex, private_hex, keypair_from_private_hex}
use tarmac.Signing.RoundTrip.{verify_body-sign_body}
use tarmac.Signing.OneKey.{one_key, one_key-IsLawful}

abbrev body : Json
body = dict (("ruling_id", str "r-01") ∷ [])

hex_text : hex (171 ∷ 205 ∷ []) ≡ "abcd"
unfolding hex
hex_text = refl

verify_body-sign_body_example :
    (verify_body one_key body (sign_body one_key body tt) (public_hex one_key tt) ≡ true)
    × (keypair_from_private_hex one_key (private_hex one_key tt) ≡ some tt)
verify_body-sign_body_example = verify_body-sign_body one_key body tt one_key-IsLawful
