-- ===== src/Ws/Base64.antt =====
-- base64_encode of src/core/ws_server.c. The output buffer has `outcap` bytes; the NUL behind the
-- text is not shown.
pub mod Decode
mod Examples
use Prim.Native.Char.{code}
use Prim.Native.String.{String}
use telemetry_platform_testb.Base.{
  codes, ℕ, ◌+◌, ◌*◌, ◌/◌, ◌%◌, ◌^◌, List, [], ◌∷◌, Option, none, some, length, get_or, ltb,
  if◌then◌else◌,
}

abbrev pub b64_tbl : List ℕ
b64_tbl = codes "ABCDEFGHIJKLMNOPQRSTUVWXYZabcdefghijklmnopqrstuvwxyz0123456789+/"

abbrev pub sextet : ℕ → ℕ
sextet n = get_or b64_tbl (n % 64) 0

-- The loop: three octets, or the one or two that remain, give four characters.
pub encode_octets : List ℕ → List ℕ
encode_octets [] = []
encode_octets (a ∷ []) =
    let triple = a * 2 ^ 16 in
    sextet (triple / 2 ^ 18) ∷ sextet (triple / 2 ^ 12) ∷ b'=' ∷ b'=' ∷ []
encode_octets (a ∷ b ∷ []) =
    let triple = a * 2 ^ 16 + b * 2 ^ 8 in
    sextet (triple / 2 ^ 18) ∷ sextet (triple / 2 ^ 12) ∷ sextet (triple / 2 ^ 6) ∷ b'=' ∷ []
encode_octets (a ∷ b ∷ c ∷ rest) =
    let triple = a * 2 ^ 16 + b * 2 ^ 8 + c in
    sextet (triple / 2 ^ 18)
    ∷ sextet (triple / 2 ^ 12)
    ∷ sextet (triple / 2 ^ 6)
    ∷ sextet triple
    ∷ encode_octets rest

-- None is -1: the text and its NUL do not fit.
unfoldable pub base64_encode : List ℕ → ℕ → Option (List ℕ)
unfolding encode_octets
base64_encode octets outcap =
    let olen = 4 * ((length octets + 2) / 3) in
    if ltb outcap (olen + 1) then none else some (encode_octets octets)
