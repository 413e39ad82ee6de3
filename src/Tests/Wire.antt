-- ===== src/Tests/Wire.antt =====
-- Requests and replies on the wire.
use greenis.Prelude.{
  ◌-◌, ◌^◌, ◌≤◌, ◌≡◌, ◌↔◌, refl, true, List, [], ◌∷◌, ◌++◌, some, none, ok, fault, arith, length,
}
use greenis.Prelude.Int.{pos, negsuc}
use greenis.Bytes.{Bytes, le_bytes, le_word}
use greenis.Buffer.{out_begin_arr, out_end_arr}
use greenis.Message.{message}
use greenis.Request.{parse_req}
use greenis.Request.Format.{encode_req, IsCommand, parse_req_exact}
use greenis.Response.{literal, response_begin, response_end}
use greenis.Response.Frame.{limited, response_frame}
use greenis.Reply.{Reply, nil, str, dbl, arr, end, item, encode, count, out_end_arr-out_begin_arr}
use greenis.Client.Io.{read_full, write_all, chunks, joined, write_all_sends, read_full-chunks}
use greenis.Client.Send.{send_req, send_req-message}
use greenis.Client.Print.{Line, print_response}
use greenis.Client.Total.{IsBounded, print_response_total}
use greenis.Client.Meaning.{render}
use greenis.Client.RoundTrip.{print_response-encode}
use greenis.Client.Receive.{read_res, read_res-message}
use greenis.Client.Overread.{print_response-overread}

abbrev get_k : List Bytes
get_k = literal "get" ∷ literal "k" ∷ []

abbrev get_k_wire : Bytes
get_k_wire = 2 ∷ 0 ∷ 0 ∷ 0 ∷ 3 ∷ 0 ∷ 0 ∷ 0 ∷ 103 ∷ 101 ∷ 116 ∷ 1 ∷ 0 ∷ 0 ∷ 0 ∷ 107 ∷ []

get_k_parsed : parse_req get_k_wire [] ≡ some get_k
unfolding parse_req le_word
get_k_parsed = refl

trailing_byte : parse_req (get_k_wire ++ 0 ∷ []) [] ≡ none
unfolding parse_req le_word
trailing_byte = refl

parse_req_exact_example :
    (parse_req get_k_wire [] ≡ some get_k) ↔ ((get_k_wire ≡ encode_req get_k) × IsCommand get_k)
parse_req_exact_example = parse_req_exact get_k_wire get_k (omega arith)

abbrev pair_reply : Reply
pair_reply = arr (item (str (literal "n1")) (item (dbl 0x3ff0_0000_0000_0000) end))

print_response-encode_example :
    print_response (encode pair_reply ++ 7 ∷ []) 40
    ≡ ok (render pair_reply, pos (length (encode pair_reply)))
unfolding encode le_bytes count
print_response-encode_example =
    print_response-encode pair_reply (7 ∷ []) 40 (omega arith) (omega arith) (omega arith)

short_reply : print_response (2 ∷ 4 ∷ 0 ∷ 0 ∷ 0 ∷ 65 ∷ []) 6 ≡ ok (Line.bad_response ∷ [], negsuc 0)
unfolding print_response le_word
short_reply = refl

print_response_total_example :
    IsBounded
      (5 ∷ 2 ∷ 0 ∷ 0 ∷ 0 ∷ 0 ∷ 2 ∷ 1 ∷ 0 ∷ 0 ∷ 0 ∷ 65 ∷ [])
      12
      (print_response (5 ∷ 2 ∷ 0 ∷ 0 ∷ 0 ∷ 0 ∷ 2 ∷ 1 ∷ 0 ∷ 0 ∷ 0 ∷ 65 ∷ []) 12)
print_response_total_example =
    print_response_total (5 ∷ 2 ∷ 0 ∷ 0 ∷ 0 ∷ 0 ∷ 2 ∷ 1 ∷ 0 ∷ 0 ∷ 0 ∷ 65 ∷ []) 12 (omega arith)
      (omega arith)

print_response-overread_example : print_response (2 ∷ le_bytes 4 (2 ^ 32 - 1)) 5 ≡ fault
print_response-overread_example = print_response-overread (2 ^ 32 - 1) (omega arith) (omega arith)

response_frame_example :
    response_end ((response_begin (9 ∷ [])).0 ++ 0 ∷ []) (response_begin (9 ∷ [])).1
    ≡ ok (9 ∷ [] ++ message (limited (0 ∷ [])))
response_frame_example = response_frame (9 ∷ []) (0 ∷ [])

out_end_arr-out_begin_arr_example :
    out_end_arr ((out_begin_arr (9 ∷ [])).0 ++ 0 ∷ []) (out_begin_arr (9 ∷ [])).1 1
    ≡ ok (9 ∷ [] ++ 5 ∷ (le_bytes 4 1 ++ 0 ∷ []))
out_end_arr-out_begin_arr_example = out_end_arr-out_begin_arr (9 ∷ []) (0 ∷ []) 1

write_all_two_parts : write_all (pos 2 ∷ pos 1 ∷ []) (1 ∷ 2 ∷ 3 ∷ []) 3 ≡ ok (true, 1 ∷ 2 ∷ 3 ∷ [])
unfolding write_all
write_all_two_parts = refl

write_all_sends_example :
    (unsent : Bytes) × (1 ∷ 2 ∷ 3 ∷ [] ≡ 1 ∷ 2 ∷ 3 ∷ [] ++ unsent) × (true ≡ true → unsent ≡ [])
write_all_sends_example = write_all_sends (pos 2 ∷ pos 1 ∷ []) (1 ∷ 2 ∷ 3 ∷ []) write_all_two_parts

read_full-chunks_example :
    read_full
      (chunks ((1 ∷ []) ∷ (2 ∷ 3 ∷ []) ∷ []) ++ [])
      (length (joined ((1 ∷ []) ∷ (2 ∷ 3 ∷ []) ∷ [])))
    ≡ ok (some (joined ((1 ∷ []) ∷ (2 ∷ 3 ∷ []) ∷ [])), [])
read_full-chunks_example = read_full-chunks ((1 ∷ []) ∷ (2 ∷ 3 ∷ []) ∷ []) [] (omega arith)

get_k-fits : length (encode_req get_k) ≤ 4096
unfolding encode_req le_bytes
get_k-fits = omega arith

send_req-message_example :
    send_req (pos 20 ∷ []) get_k
    ≡ write_all (pos 20 ∷ []) (message (encode_req get_k)) (length (message (encode_req get_k)))
send_req-message_example = send_req-message (pos 20 ∷ []) get_k get_k-fits

nil_wire : joined ((0 ∷ []) ∷ []) ≡ encode nil
unfolding joined encode
nil_wire = refl

nil_size : joined ((1 ∷ 0 ∷ []) ∷ (0 ∷ 0 ∷ []) ∷ []) ≡ le_bytes 4 (length (encode nil))
unfolding joined encode le_bytes
nil_size = refl

nil-fits : length (encode nil) ≤ 4096
unfolding encode
nil-fits = omega arith

read_res-message_example :
    read_res (chunks ((1 ∷ 0 ∷ []) ∷ (0 ∷ 0 ∷ []) ∷ []) ++ (chunks ((0 ∷ []) ∷ []) ++ []))
    ≡ ok (render nil, pos (length (encode nil)))
read_res-message_example =
    read_res-message nil ((1 ∷ 0 ∷ []) ∷ (0 ∷ 0 ∷ []) ∷ []) ((0 ∷ []) ∷ []) [] tt nil-fits
      (omega arith) (omega arith) nil_size nil_wire
