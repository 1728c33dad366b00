-- ===== src/Tunnel/Tls.antt =====
-- src/tunnel/tls.rs: reading the server name out of a ClientHello. The connection is the list of the
-- bytes that it will give before it ends. The server name is given as its bytes; the source decodes
-- them by `String::from_utf8_lossy`.
pub mod Bounds
pub mod Peeking
pub mod Extensions
pub mod Hello
use Prim.Native.String.{String}
use rsnova.Base.{
  ℕ, zero, suc, ◌+◌, ◌*◌, ◌%◌, Bool, true, false, ◌||◌, ◌&&◌, not, Option, none, some, List, [],
  ◌∷◌, ◌++◌, length, take, drop, ltb, ◌==◌, if◌then◌else◌,
}
use rsnova.Base.Outcome.{
  Outcome, ok, err, panic, stuck, Error, other, unexpected_eof, ◌>>=◌, ◌>>◌, fail_if,
}
use rsnova.Base.Slice.{index, slice_from}

unfoldable pub valid_tls_version : List ℕ → Bool
valid_tls_version (record_type ∷ tls_major_ver ∷ tls_minor_ver ∷ rest) =
    record_type == 0x16 && not (ltb tls_major_ver 3)
valid_tls_version buf = false

-- `read_exact`: so many bytes, and what the connection still has.
abbrev pub read_exact : ℕ → List ℕ → Outcome (List ℕ × List ℕ)
read_exact n stream =
    if ltb (length stream) n then err unexpected_eof else ok (take n stream, drop n stream)

-- `((xs[i] as usize) << 8) + xs[i + 1] as usize`
abbrev pub word_at : List ℕ → ℕ → Outcome ℕ
word_at xs i = index xs i >>= λ hi. index xs (i + 1) >>= λ lo. ok (hi * 256 + lo)

abbrev pub refuse {ℓ} : {A : Type ℓ} → Bool → String → Outcome A → Outcome A
refuse bad why later = if bad then err (other why) else later

-- `for _ in 0..num_names`; no name where every one of them was of another type.
unfoldable pub find_name : ℕ → List ℕ → Outcome (Option (List ℕ))
find_name zero dat = ok none
find_name (suc k) dat =
    let later = find_name k in
    refuse (ltb (length dat) 3) "invalid ext data length" (
      index dat 0 >>= λ name_type. word_at dat 1 >>= λ name_len. slice_from 3 dat >>= λ names.
      refuse (ltb (length names) name_len) "invalid ext name data" (
        if name_type == 0
        then ok (some (take name_len names))
        else (slice_from name_len names >>= later)))

-- The contents of one extension.
unfoldable pub server_name : ℕ → ℕ → List ℕ → Outcome (Option (List ℕ))
unfolding find_name
server_name extension len ext_buf =
    if extension == 0
    then refuse (ltb len 2) "invalid ext buf length"
        (word_at ext_buf 0 >>= λ num_names. slice_from 2 ext_buf >>= find_name num_names)
    else ok none

abbrev pub or_go_on : Outcome (List ℕ) → Option (List ℕ) → Outcome (List ℕ)
or_go_on later none = later
or_go_on later (some name) = ok name

-- The loop over the extensions: each round leaves at least four bytes behind.
unfoldable pub scan_extensions : ℕ → List ℕ → Outcome (List ℕ)
unfolding server_name
scan_extensions zero ext_buf = stuck
scan_extensions (suc fuel) ext_buf =
    let later = scan_extensions fuel in
    refuse (ltb (length ext_buf) 4) "invalid ext buf len" (
      word_at ext_buf 0 >>= λ extension. word_at ext_buf 2 >>= λ len.
      slice_from 4 ext_buf >>= λ rest.
      refuse (ltb (length rest) len) "invalid ext buf content"
        (server_name extension len rest >>= or_go_on (slice_from len rest >>= later)))

-- Behind the session id: the cipher suites, the compression methods and the extensions.
unfoldable pub after_session_id : List ℕ → Outcome (List ℕ)
unfolding scan_extensions
after_session_id rest0 = refuse (ltb (length rest0) 2) "no sufficient space for sni0" (
    word_at rest0 0 >>= λ cipher_len.
    refuse (cipher_len % 2 == 1 || ltb (length rest0) (3 + cipher_len)) "invalid cipher_len" (
      slice_from (2 + cipher_len) rest0 >>= λ rest1. index rest1 0 >>= λ compress_method_len.
      refuse (ltb (length rest1) (1 + compress_method_len)) "invalid compress_method_len" (
        slice_from (1 + compress_method_len) rest1 >>= λ rest2.
        refuse (ltb (length rest2) 2) "invalid after compress_method" (
          word_at rest2 0 >>= λ ext_len. slice_from 2 rest2 >>= λ rest3.
          refuse (ltb (length rest3) ext_len) "invalid ext_len" (
            refuse (ext_len == 0) "no extension in client_hello"
              (scan_extensions (length rest3 + 1) rest3))))))

-- The handshake message.
unfoldable pub client_hello : List ℕ → Outcome (List ℕ)
unfolding after_session_id
client_hello vdata = index vdata 0 >>= λ handshake.
    refuse (not (handshake == 1)) "not clienthello handshake" (
      slice_from 38 vdata >>= λ rest.
      index rest 0 >>= λ sid_len. slice_from (1 + sid_len) rest >>= after_session_id)

-- The name, the bytes that were read, and the rest of the connection.
unfoldable pub peek_sni : List ℕ → Outcome (List ℕ × List ℕ × List ℕ)
unfolding client_hello
peek_sni inbound = read_exact 5 inbound >>= λ (ver_len_buf, inbound1).
    word_at ver_len_buf 3 >>= λ n. refuse (ltb n 42) "no sufficient space for sni" (
      read_exact n inbound1 >>= λ (vdata, inbound2).
      client_hello vdata >>= λ name. ok (name, ver_len_buf ++ vdata, inbound2))
