-- ===== src/Ws/Request/Accept.antt =====
-- The accept key of RFC 6455, section 4.2.2, against compute_accept_key of src/core/ws_server.c.
use telemetry_platform_testb.Base.{
  codes, take-all, ◌≤◌, ◌≡◌, ap, ◌∙◌, inl, inr, [], ◌∷◌, ◌++◌, append-nil, some, arith, length,
  take, length-append,
}
use telemetry_platform_testb.Types.{CString}
use telemetry_platform_testb.Ws.Sha1.{sha1_init, sha1_update, sha1_final}
use telemetry_platform_testb.Ws.Sha1.Digest.{sha1, sha1-IsBytes, sha1_final-sha1}
use telemetry_platform_testb.Ws.Base64.{base64_encode}
use telemetry_platform_testb.Ws.Base64.Decode.{decode, base64_encode-decode}
use telemetry_platform_testb.Ws.Request.{ws_guid, compute_accept_key}

-- For a key of at most 219 bytes, which with the GUID fits the array, compute_accept_key succeeds, and
-- what it returns has 28 characters and decodes from base64 to the SHA-1 of the key and the GUID of the RFC.
pub compute_accept_key-sha1 :
    (key : CString)
    → length key ≤ 219
    → (accept : CString) × (compute_accept_key key ≡ some accept)
      × (length accept ≡ 28)
      × (decode accept ≡ sha1 (key ++ codes "258EAFA5-E914-47DA-95CA-C5AB0DC85B11"))
unfolding compute_accept_key
compute_accept_key-sha1 key small =
    let whole = key ++ ws_guid in
    let size = length-append key ws_guid in
    let fits : take 255 whole ≡ whole = take-all whole 255 (omega (arith, size)) in
    let digest : sha1_final (sha1_update sha1_init whole) ≡ sha1 whole =
      sha1_final-sha1 (whole ∷ []) (omega (arith, size, length-append whole []))
      ∙ ap sha1 (append-nil whole) in
    let bytes = sha1-IsBytes whole in
    let same =
      ap (λ w. base64_encode (sha1_final (sha1_update sha1_init w)) 64) fits
      ∙ ap (λ d. base64_encode d 64) digest in
    elim (base64_encode-decode (sha1 whole) 64 bytes.0) [
      | inl (stuck, full) ↦ absurd (omega (arith, full, bytes.1))
      | inr (text, done, less, count, back) ↦
          (text, same ∙ done, omega (arith, count, bytes.1), back)
    ]
