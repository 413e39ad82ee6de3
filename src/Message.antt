-- ===== src/Message.antt =====
-- The frame that requests and replies share: a size of four bytes, then as many bytes. `K_MAX_MSG` of
-- inc/defs.h bounds the size.
use greenis.Prelude.{ℕ, ◌+◌, ◌≡◌, ◌++◌, arith, length, length-append}
use greenis.Bytes.{Bytes, le_bytes, length-le_bytes}

abbrev pub k_max_msg : ℕ
k_max_msg = 4096

unfoldable pub message : Bytes → Bytes
message body = le_bytes 4 (length body) ++ body

pub length-message : (body : Bytes) → length (message body) ≡ 4 + length body
unfolding message
length-message body =
    omega (arith, length-append (le_bytes 4 (length body)) body, length-le_bytes 4 (length body))
