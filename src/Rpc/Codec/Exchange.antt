-- ===== src/Rpc/Codec/Exchange.antt =====
-- A message that one codec writes, another reads back.
use mathlib.Core.Path.{subst}
use auxitalk.Base.{
  Bool, true, ◌+◌, pos, ltb_ℤ, ◌≤ℤ◌, String, false, [], ◌∷◌, ◌++◌, Option, none, some, Error,
  Result, ok, ◌==◌, ◌≡◌, ◌≢◌, ◌⊎◌, nat_eq, string_eq, eq_iff, refl, ap, sym, ◌∙◌, arith, length,
  All, inl, inr, Bool-cases,
}
use auxitalk.Base.Lists.{length-append}
use auxitalk.Rpc.Protocol.{Raw, Request, Response, RpcError, version}
use auxitalk.Rpc.Codec.{
  Bytes, newline, Codec, Json, written, read_bytes, read_line, take_line, write_json, read_request,
  write_request, parse_request, check_request, default_request, read_response, write_response,
  parse_response, check_response, default_response,
}

abbrev pub OneLine : Bytes → Type 0
OneLine bs = All (λ b. b ≢ newline) bs

-- A raw message is absent, or one that `steady` tells.
abbrev pub IsSteady : (Raw → Bool) → Option Raw → Type 0
IsSteady steady none = Unit
IsSteady steady (some raw) = steady raw ≡ true

abbrev pub HasSteadyInfo : (Raw → Bool) → Option RpcError → Type 0
HasSteadyInfo steady none = Unit
HasSteadyInfo steady (some e) = IsSteady steady e.info

-- What the codec relies on of encoding/json: an encoded message has no newline in it, and decodes,
-- with the newline behind it, to what was encoded, if its raw messages are steady. `steady` tells the
-- raw messages that json.Marshal writes as they stand and json.Unmarshal gives back: one compact
-- JSON value with <, > and & escaped. Marshal compacts and escapes any other, and leaves out an empty
-- one.
pub record IsJson (json : Json) (steady : Raw → Bool) : Type 0 where
  pub request_line : (r : Request) (bs : Bytes) → json.encode_request r ≡ ok bs → OneLine bs
  pub request_back :
      (r : Request) (bs : Bytes)
      → IsSteady steady r.params
      → json.encode_request r ≡ ok bs
      → json.decode_request (bs ++ newline ∷ []) ≡ ok r
  pub response_line : (r : Response) (bs : Bytes) → json.encode_response r ≡ ok bs → OneLine bs
  pub response_back :
      (r : Response) (bs : Bytes)
      → IsSteady steady r.result
      → HasSteadyInfo steady r.error
      → json.encode_response r ≡ ok bs
      → json.decode_response (bs ++ newline ∷ []) ≡ ok r

read_bytes-line :
    (bs rest : Bytes)
    → OneLine bs
    → read_bytes (bs ++ newline ∷ rest) ≡ (some (bs ++ newline ∷ []), rest)
unfolding read_bytes
read_bytes-line [] rest h = refl
read_bytes-line (b ∷ bs) rest h = ground (arith, read_bytes-line bs rest h.1)

read_line-line :
    (bs rest : Bytes) (c : Codec)
    → OneLine bs
    → pos (length bs + 1) ≤ℤ c.max_payload_size
    → c.input ≡ bs ++ newline ∷ rest
    → read_line none c ≡ (record c { input = rest }, ok (bs ++ newline ∷ []))
unfolding read_line take_line
read_line-line bs rest c h fits given =
    let size : length (bs ++ newline ∷ []) ≡ length bs + 1 = length-append bs (newline ∷ []) in
    let small : ltb_ℤ c.max_payload_size (pos (length (bs ++ newline ∷ []))) ≡ false =
      rw size (ground arith) in
    ap (take_line none c) (ap read_bytes given ∙ read_bytes-line bs rest h) ∙ rw small

check_request_ok : (r : Request) → r.jsonrpc ≡ version → r.method ≢ "" → check_request r ≡ ok r
unfolding check_request
check_request_ok r v m = ground (arith, eq_iff r.jsonrpc version, eq_iff r.method "")

check_response_ok : (r : Response) → r.jsonrpc ≡ version → r.id ≢ "" → check_response r ≡ ok r
unfolding check_response
check_response_ok r v m = ground (arith, eq_iff r.jsonrpc version, eq_iff r.id "")

-- The version is left to the codec, or right.
abbrev pub IsVersion : String → Type 0
IsVersion v = (v ≡ "") ⊎ (v ≡ version)

default_request_ok :
    (r : Request)
    → IsVersion r.jsonrpc
    → ((default_request r).jsonrpc ≡ version)
      × ((default_request r).method ≡ r.method)
      × ((default_request r).params ≡ r.params)
unfolding default_request
default_request_ok r h = elim (Bool-cases (r.jsonrpc == "")) [
  | inl e ↦ rw e (refl, refl, refl)
  | inr n ↦ rw n (ground (arith, eq_iff r.jsonrpc ""), refl, refl)
]

default_response_ok :
    (r : Response)
    → IsVersion r.jsonrpc
    → ((default_response r).jsonrpc ≡ version)
      × ((default_response r).id ≡ r.id)
      × ((default_response r).result ≡ r.result)
      × ((default_response r).error ≡ r.error)
unfolding default_response
default_response_ok r h = elim (Bool-cases (r.jsonrpc == "")) [
  | inl e ↦ rw e (refl, refl, refl, refl)
  | inr n ↦ rw n (ground (arith, eq_iff r.jsonrpc ""), refl, refl, refl)
]

-- A codec whose limit admits the bytes and their newline writes them as a line.
write_json-written :
    (bs : Bytes) (c : Codec)
    → pos (length bs + 1) ≤ℤ c.max_payload_size
    → write_json written (ok bs) c ≡ (record c { output = c.output ++ (bs ++ newline ∷ []) }, none)
unfolding write_json
write_json-written bs c fits =
    let small : ltb_ℤ c.max_payload_size (pos (length bs + 1)) ≡ false = ground arith in rw small

-- What `written` puts out of the codec `from`, and `back` reads at the codec `to` in front of `rest`.
abbrev pub Exchanged :
    {A : Type 0}
    → Codec × Option Error
    → Codec × Result A
    → (from to : Codec) → (bs rest : Bytes) → A
    → Type 0
Exchanged w r from to bs rest a =
    (w ≡ (record from { output = from.output ++ (bs ++ newline ∷ []) }, none))
    × (r ≡ (record to { input = rest }, ok a))

module _ (json : Json) (steady : Raw → Bool) (laws : IsJson json steady) (bs rest : Bytes)
    (from to : Codec) where
  abbrev Fits : Type 0
  Fits =
      (pos (length bs + 1) ≤ℤ from.max_payload_size)
      × (pos (length bs + 1) ≤ℤ to.max_payload_size)
      × (to.input ≡ bs ++ newline ∷ rest)

  -- A request with a method, whose version is left to the codec or right, whose parameters, if it has
  -- any, are a text that encoding/json keeps as it stands, and whose encoding fits the limits of both
  -- codecs, is written as one line; a codec with that line in front of its input reads
  -- back the request, with its version filled in, and leaves what stands behind the line.
  pub read-write_request :
      (r : Request)
      → IsVersion r.jsonrpc
      → r.method ≢ ""
      → IsSteady steady r.params
      → json.encode_request (default_request r) ≡ ok bs
      → Fits
      → Exchanged
          (write_request json written r from)
          (read_request json none to)
          from
          to
          bs
          rest
          (default_request r)
  unfolding write_request read_request parse_request
  read-write_request r v m still enc (out, inp, given) =
      let d = default_request_ok r v in
      let line =
        read_line-line bs rest to (laws.request_line (default_request r) bs enc) inp given in
      let checked = check_request_ok (default_request r) d.0 (λ p. m (sym d.1 ∙ p)) in
      (
        ap (λ x. write_json written x from) enc ∙ write_json-written bs from out,
        ap (λ x. (x.0, parse_request json x.1)) line
            ∙ rw (
              laws.request_back (default_request r) bs (subst (IsSteady steady) (sym d.2) still)
                  enc,
              parse_request,
              checked,
            ),
      )

  -- The same for a response, with its id in place of the method, and its result and the data
  -- of its error in place of the parameters.
  pub read-write_response :
      (r : Response)
      → IsVersion r.jsonrpc
      → r.id ≢ ""
      → IsSteady steady r.result
      → HasSteadyInfo steady r.error
      → json.encode_response (default_response r) ≡ ok bs
      → Fits
      → Exchanged
          (write_response json written r from)
          (read_response json none to)
          from
          to
          bs
          rest
          (default_response r)
  unfolding write_response read_response parse_response
  read-write_response r v m still info enc (out, inp, given) =
      let d = default_response_ok r v in
      let line =
        read_line-line bs rest to (laws.response_line (default_response r) bs enc) inp given in
      let checked = check_response_ok (default_response r) d.0 (λ p. m (sym d.1 ∙ p)) in
      (
        ap (λ x. write_json written x from) enc ∙ write_json-written bs from out,
        ap (λ x. (x.0, parse_response json x.1)) line
            ∙ rw (
              laws.response_back (default_response r) bs (subst (IsSteady steady) (sym d.2) still)
                  (subst (HasSteadyInfo steady) (sym d.3) info) enc,
              parse_response,
              checked,
            ),
      )
