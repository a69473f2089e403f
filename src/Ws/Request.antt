-- ===== src/Ws/Request.antt =====
-- The upgrade request and the requests of a client in src/core/ws_server.c: icase_starts_with,
-- find_header_value, read_http_request, compute_accept_key, ws_handshake, json_find_int and
-- is_history_request. A C string is the list of its bytes before the NUL; pointers are not NULL.
pub mod Accept
pub mod Fields
mod Examples
use telemetry_platform_testb.Base.{
  ℕ, zero, suc, ◌+◌, ◌-◌, ◌*◌, Bool, true, false, not, ◌&&◌, ◌||◌, List, [], ◌∷◌, ◌++◌, Option,
  none, some, length, get_or, take, drop, ltb, leb, ◌==◌, codes, same_string, ◌>>=◌, if◌then◌else◌,
}
use telemetry_platform_testb.Base.Int.{ℤ, pos, sub_ℕ}
use telemetry_platform_testb.Libc.{tolower, isspace, isdigit}
use telemetry_platform_testb.Types.{CString}
use telemetry_platform_testb.Ws.Socket.{
  Arrival, chunk, interrupted, closed, failed, left_over, Sent, send_all,
}
use telemetry_platform_testb.Ws.Sha1.{sha1_init, sha1_update, sha1_final}
use telemetry_platform_testb.Ws.Base64.{base64_encode}

pub icase_starts_with : CString → CString → Bool
icase_starts_with s [] = true
icase_starts_with [] (p ∷ prefix) = false
icase_starts_with (c ∷ s) (p ∷ prefix) =
    let rest = icase_starts_with s prefix in if tolower c == tolower p then rest else false

-- strstr: the string from the first match on.
pub strstr : CString → CString → Option CString
strstr [] pat = if same_string pat [] then some [] else none
strstr (c ∷ s) pat =
    let later = strstr s pat in
    if same_string (take (length pat) (c ∷ s)) pat then some (c ∷ s) else later

-- strchr, for a character that is not NUL.
pub strchr : CString → ℕ → Option CString
strchr [] ch = none
strchr (c ∷ s) ch = let later = strchr s ch in if c == ch then some (c ∷ s) else later

-- The string in front of the first NUL of a buffer.
pub c_string : List ℕ → CString
c_string [] = []
c_string (c ∷ s) = let rest = c_string s in if c == 0 then [] else c ∷ rest

-- The line in front of the first CRLF, and what follows it.
pub split_line : CString → Option (CString × CString)
split_line [] = none
split_line (c ∷ s) =
    let later = split_line s >>= λ r. some (c ∷ r.0, r.1) in
    if c == 13 && get_or s 0 0 == 10 then some ([], drop 1 s) else later

pub skip_blanks : CString → CString
skip_blanks [] = []
skip_blanks (c ∷ s) = let rest = skip_blanks s in if c == b' ' || c == 9 then rest else c ∷ s

-- The loop of find_header_value: each turn takes at least a CRLF off the text, so its length is enough
-- fuel.
pub find_from : ℕ → CString → CString → Option CString
unfolding icase_starts_with skip_blanks split_line
find_from zero p name = none
find_from (suc fuel) p name = split_line p >>= λ l.
    let later = find_from fuel l.1 name in
    let matches =
      ltb (length name + 1) (length l.0)
      && icase_starts_with p name
      && get_or p (length name) 0 == b':' in
    if length l.0 == 0
    then none
    else if matches
    then some (skip_blanks (drop (length name + 1) l.0))
    else later

pub find_header_value : CString → CString → Option CString
unfolding find_from
find_header_value http name = find_from (length http) http name

-- read_http_request, with what the buffer of `cap` bytes holds so far: the bytes read and what is left
-- to arrive, or none for -1.
pub read_http_request : ℕ → List ℕ → List Arrival → Option (List ℕ × List Arrival)
unfolding strstr c_string
read_http_request cap buf [] = none
read_http_request cap buf (interrupted ∷ es) = read_http_request cap buf es
read_http_request cap buf (closed ∷ es) = none
read_http_request cap buf (failed ∷ es) = none
read_http_request cap buf (chunk b bs ∷ es) =
    let room = cap - length buf - 1 in
    let now = buf ++ take room (b ∷ bs) in
    let more = read_http_request cap now es in
    elim (strstr (c_string now) (13 ∷ 10 ∷ 13 ∷ 10 ∷ [])) [
      | some found ↦ some (now, left_over (drop room (b ∷ bs)) es)
      | none ↦ if leb (cap - 1) (length now) then none else more
    ]

-- WS_GUID
abbrev pub ws_guid : CString
ws_guid = codes "258EAFA5-E914-47DA-95CA-C5AB0DC85B11"

-- None is -1. The array `cat` holds 255 bytes and the NUL.
pub compute_accept_key : CString → Option CString
compute_accept_key sec_key =
    let cat = take 255 (sec_key ++ ws_guid) in
    base64_encode (sha1_final (sha1_update sha1_init cat)) 64

-- The response with the accept key.
abbrev pub response : CString → CString
response accept =
    codes
      "HTTP/1.1 101 Switching Protocols\r\nUpgrade: websocket\r\nConnection: Upgrade\r\nSec-WebSocket-Accept: "
    ++ (accept ++ (13 ∷ 10 ∷ 13 ∷ 10 ∷ []))

-- The checks of ws_handshake on the request, and the response to it.
pub answer : CString → Option CString
unfolding compute_accept_key find_header_value
answer http =
    if not (same_string (take 4 http) (codes "GET "))
    then none
    else find_header_value http (codes "Sec-WebSocket-Key") >>= λ key.
        if length key == 0
        then none
        else compute_accept_key key >>= λ accept.
            if ltb (length (response accept)) 256 then some (response accept) else none

-- ws_handshake: what went out, whether it succeeded, the answers of send that are left, and what is
-- left to arrive.
unfoldable pub ws_handshake : List Arrival → List Sent → List ℕ × Bool × List Sent × List Arrival
unfolding answer read_http_request
ws_handshake es ws = elim (read_http_request 8192 [] es) [
  | none ↦ ([], false, ws, [])
  | some (http, rest) ↦ elim (answer (c_string http)) [
    | none ↦ ([], false, ws, rest)
    | some text ↦ let out = send_all text ws in (out.0, out.1, out.2, rest)
  ]
]

pub skip_spaces : CString → CString
skip_spaces [] = []
skip_spaces (c ∷ s) = let rest = skip_spaces s in if isspace c then rest else c ∷ s

-- The digits, up to the first value above 1000000.
pub read_digits : ℕ → CString → ℕ
read_digits v [] = v
read_digits v (c ∷ s) =
    let next = v * 10 + (c - b'0') in
    let rest = read_digits next s in
    if isdigit c then (if ltb 1000000 next then next else rest) else v

-- `if(!isdigit(*p)) return defv;`, then the digits with the sign.
pub signed_int : Bool → CString → ℤ → ℤ
unfolding read_digits
signed_int negative [] defv = defv
signed_int negative (c ∷ s) defv =
    let v = read_digits 0 (c ∷ s) in
    if isdigit c then (if negative then sub_ℕ 0 v else pos v) else defv

pub int_at : CString → ℤ → ℤ
unfolding signed_int
int_at [] defv = defv
int_at (c ∷ s) defv = if c == b'-' then signed_int true s defv else signed_int false (c ∷ s) defv

pub json_find_int : CString → CString → ℤ → ℤ
unfolding strstr strchr skip_spaces int_at
json_find_int json key defv = elim (strstr json key >>= λ p. strchr p b':') [
  | none ↦ defv
  | some p ↦ int_at (skip_spaces (drop 1 p)) defv
]

-- Is there "history" behind the first "type", with its quotes if there is one with them?
pub is_history_request : CString → Bool
unfolding strstr
is_history_request json =
    let quoted = strstr json (codes "\"type\"") in
    let plain = strstr json (codes "type") in
    let p : Option CString = elim quoted [ none ↦ plain | some q ↦ some q ] in
    elim (p >>= λ p. strstr p (codes "history")) [ none ↦ false | some h ↦ true ]
