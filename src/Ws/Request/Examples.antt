-- ===== src/Ws/Request/Examples.antt =====
-- The sample handshake of RFC 6455, section 1.3, and two requests.
use telemetry_platform_testb.Base.{◌≡◌, refl, true, ◌++◌, length, some, arith, codes, same_string}
use telemetry_platform_testb.Base.Int.{pos}
use telemetry_platform_testb.Types.{CString}
use telemetry_platform_testb.Ws.Sha1.{sha1_init, sha1_final, sha1_transform}
use telemetry_platform_testb.Ws.Base64.{base64_encode}
use telemetry_platform_testb.Ws.Sha1.Digest.{sha1}
use telemetry_platform_testb.Ws.Base64.Decode.{decode}
use telemetry_platform_testb.Ws.Request.{
  find_header_value, ws_guid, answer, response, compute_accept_key, json_find_int,
  is_history_request,
}
use telemetry_platform_testb.Ws.Request.Accept.{compute_accept_key-sha1}

abbrev sample_key : CString
sample_key = codes "dGhlIHNhbXBsZSBub25jZQ=="

finds_key :
    find_header_value
      (codes
        "GET /chat HTTP/1.1\r\nHost: a\r\nsec-websocket-key:  dGhlIHNhbXBsZSBub25jZQ==\r\n\r\n")
      (codes "Sec-WebSocket-Key")
    ≡ some sample_key
unfolding find_header_value
finds_key = refl

reads_last :
    json_find_int (codes "{\"type\":\"history\",\"last\": 250}") (codes "\"last\"") (pos 300)
    ≡ pos 250
unfolding json_find_int same_string
reads_last = refl

asks_history : is_history_request (codes "{\"type\": \"history\"}") ≡ true
unfolding is_history_request same_string
asks_history = refl

compute_accept_key-sha1_example :
    (accept : CString) × (compute_accept_key sample_key ≡ some accept)
    × (length accept ≡ 28)
    × (decode accept ≡ sha1 (sample_key ++ ws_guid))
compute_accept_key-sha1_example = compute_accept_key-sha1 sample_key (omega arith)

sample_answer :
    answer
      (codes "GET /chat HTTP/1.1\r\nHost: a\r\nSec-WebSocket-Key: dGhlIHNhbXBsZSBub25jZQ==\r\n\r\n")
    ≡ some (response (codes "s3pPLMBiTxaQ9kYGzzhZRbK+xOo="))
unfolding answer compute_accept_key find_header_value same_string base64_encode sha1_final sha1_init
    sha1_transform
sample_answer = refl
