-- ===== src/Rpc/Codec.antt =====
-- internal/rpc/codec.go. A message is a line of bytes; encoding/json is a parameter.
pub mod Exchange
use auxitalk.Base.{
  ℕ, ◌+◌, ◌*◌, ℤ, pos, ltb_ℤ, String, true, false, List, [], ◌∷◌, ◌++◌, Option, none, some, Error,
  Result, ok, err, ◌==◌, nat_eq, string_eq, if◌then◌else◌, concat, length, not,
}
use auxitalk.Rpc.Protocol.{Request, Response, version}

abbrev pub Bytes : Type 0
Bytes = List ℕ

-- '\n'
abbrev pub newline : ℕ
newline = 10

pub record Codec : Type 0 where
  pub input : Bytes  -- what the reader has still to give before its end
  pub output : Bytes  -- what the writer has been given
  pub max_payload_size : ℤ  -- int64

pub new_codec : Bytes → ℤ → Codec
new_codec input max = record {
  input = input;
  output = [];
  max_payload_size = if ltb_ℤ max (pos 1) then pos (1024 * 1024) else max;
}

abbrev pub err_payload_too_large : Error
err_payload_too_large = "jsonrpc payload too large"

-- io.EOF
abbrev pub err_eof : Error
err_eof = "EOF"

-- reader.ReadBytes('\n'): the bytes up to the newline and with it, and those behind it; at the end
-- of the input all bytes are consumed.
unfoldable pub read_bytes : Bytes → Option Bytes × Bytes
read_bytes [] = (none, [])
read_bytes (b ∷ bs) =
    let (line, rest) = read_bytes bs in
    if b == newline
    then (some (b ∷ []), bs)
    else (elim line [ none ↦ none | some l ↦ some (b ∷ l) ], rest)

-- What readLine makes of what its goroutine has read.
unfoldable pub take_line : Option Error → Codec → Option Bytes × Bytes → Codec × Result Bytes
take_line (some e) c (line, rest) = (record c { input = rest }, err e)
take_line none c (none, rest) = (record c { input = rest }, err err_eof)
take_line none c (some l, rest) =
    if ltb_ℤ c.max_payload_size (pos (length l))
    then (record c { input = rest }, err err_payload_too_large)
    else (record c { input = rest }, ok l)

-- The goroutine reads a line in any case: `done` is the error of a context that ended before it.
unfoldable pub read_line : Option Error → Codec → Codec × Result Bytes
unfolding read_bytes take_line
read_line done c = take_line done c (read_bytes c.input)

-- How a write ends: it is complete, the writer fails after some bytes, or the context ends first,
-- with the write still going on.
pub data WriteEnd : Type 0 where
  written : WriteEnd
  broken : ℕ → Error → WriteEnd
  abandoned : Error → WriteEnd

abbrev take_bytes : ℕ → Bytes → Bytes
take_bytes ℕ.zero bs = []
take_bytes (ℕ.suc n) [] = []
take_bytes (ℕ.suc n) (b ∷ bs) = b ∷ take_bytes n bs

-- `encoded` is what json.Marshal makes of the value.
unfoldable pub write_json : WriteEnd → Result Bytes → Codec → Codec × Option Error
write_json end' (err e) c = (c, some (concat ("marshal jsonrpc message: " ∷ e ∷ [])))
write_json end' (ok data') c =
    let line = data' ++ newline ∷ [] in
    if ltb_ℤ c.max_payload_size (pos (length data' + 1))
    then (c, some err_payload_too_large)
    else (elim end' [
      | written ↦ (record c { output = c.output ++ line }, none)
      | broken n e ↦ (record c { output = c.output ++ take_bytes n line }, some e)
      | abandoned e ↦ (record c { output = c.output ++ line }, some e)
    ])

-- the checks of ReadRequest on a decoded request
unfoldable pub check_request : Request → Result Request
check_request r =
    if not (r.jsonrpc == version)
    then err "invalid jsonrpc version"
    else if r.method == ""
    then err "jsonrpc method is required"
    else ok r

unfoldable pub check_response : Response → Result Response
check_response r =
    if not (r.jsonrpc == version)
    then err "invalid jsonrpc version"
    else if r.id == ""
    then err "jsonrpc response id is required"
    else ok r

unfoldable pub default_request : Request → Request
default_request r = if r.jsonrpc == "" then record r { jsonrpc = version } else r

unfoldable pub default_response : Response → Response
default_response r = if r.jsonrpc == "" then record r { jsonrpc = version } else r

-- encoding/json on the messages
pub record Json : Type 0 where
  pub encode_request : Request → Result Bytes
  pub decode_request : Bytes → Result Request
  pub encode_response : Response → Result Bytes
  pub decode_response : Bytes → Result Response

module _ (json : Json) where
  unfoldable pub parse_request : Result Bytes → Result Request
  unfolding check_request
  parse_request (err e) = err e
  parse_request (ok line) = elim (json.decode_request line) [
    | err e ↦ err (concat ("parse jsonrpc request: " ∷ e ∷ []))
    | ok r ↦ check_request r
  ]

  unfoldable pub read_request : Option Error → Codec → Codec × Result Request
  unfolding read_line parse_request
  read_request done c = let (c', line) = read_line done c in (c', parse_request line)

  unfoldable pub parse_response : Result Bytes → Result Response
  unfolding check_response
  parse_response (err e) = err e
  parse_response (ok line) = elim (json.decode_response line) [
    | err e ↦ err (concat ("parse jsonrpc response: " ∷ e ∷ []))
    | ok r ↦ check_response r
  ]

  unfoldable pub read_response : Option Error → Codec → Codec × Result Response
  unfolding read_line parse_response
  read_response done c = let (c', line) = read_line done c in (c', parse_response line)

  unfoldable pub write_request : WriteEnd → Request → Codec → Codec × Option Error
  unfolding write_json default_request
  write_request end' r c = write_json end' (json.encode_request (default_request r)) c

  unfoldable pub write_response : WriteEnd → Response → Codec → Codec × Option Error
  unfolding write_json default_response
  write_response end' r c = write_json end' (json.encode_response (default_response r)) c
