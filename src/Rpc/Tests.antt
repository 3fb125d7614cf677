-- ===== src/Rpc/Tests.antt =====
-- Runs of the codec with a JSON that knows one request, and writes it as one byte.
use auxitalk.Base.{
  pos, Bool, true, false, [], ◌∷◌, none, some, Result, ok, err, ◌==◌, ◌≡◌, ◌≢◌, Option-cases,
  string_eq, eq_iff, refl, sym, ap, arith, if◌then◌else◌, inl, inr, ◌&&◌, Bool-cases,
}
use auxitalk.Rpc.Protocol.{Raw, Request, version}
use auxitalk.Rpc.Codec.{
  Bytes, newline, Codec, Json, written, read_request, write_request, default_request,
}
use auxitalk.Rpc.Codec.Exchange.{IsJson, Exchanged, read-write_request}

-- the parameters
abbrev two : Raw
two = "2"

abbrev ping : Request
ping = record { jsonrpc = ""; id = "1"; method = "ping"; params = some two }

abbrev sent_ping : Request
sent_ping = record { jsonrpc = version; id = "1"; method = "ping"; params = some two }

abbrev is_sent_ping : Request → Bool
is_sent_ping r = (r.jsonrpc == version) && ((r.id == "1") && (r.method == "ping"))

abbrev encode_ping : Request → Result Bytes
encode_ping r = elim r.params [
  | none ↦ err "unknown"
  | some p ↦ if p == two && is_sent_ping r then ok (1 ∷ []) else err "unknown"
]

abbrev ping_json : Json
ping_json = record {
  encode_request = encode_ping;
  decode_request = λ _. ok sent_ping;
  encode_response = λ _. err "unknown";
  decode_response = λ _. err "unknown";
}

known : (r : Request) (bs : Bytes) → encode_ping r ≡ ok bs → (bs ≡ 1 ∷ []) × (r ≡ sent_ping)
known r bs h = elim (Option-cases r.params) [
  | inl n ↦ (let e : encode_ping r ≡ err "unknown" = rw n refl in absurd (cc))
  | inr (x, p) ↦ elim (Bool-cases (x == two && is_sent_ping r)) [
    | inl y ↦
        (let e : encode_ping r ≡ ok (1 ∷ []) = rw (p, y) refl in
          let t : x ≡ two = ground (arith, eq_iff x two) in
          let v : r.jsonrpc ≡ version = ground (arith, eq_iff r.jsonrpc version) in
          let i : r.id ≡ "1" = ground (arith, eq_iff r.id "1") in
          let m : r.method ≡ "ping" = ground (arith, eq_iff r.method "ping") in
          (cc, rw (v, i, m, p, t) refl))
    | inr n ↦ (let e : encode_ping r ≡ err "unknown" = rw (p, n) refl in absurd (cc))
  ]
]

abbrev is_two : Raw → Bool
is_two raw = raw == two

ping_json-IsJson : IsJson ping_json is_two
ping_json-IsJson = record {
  request_line = λ r bs h. rw (known r bs h).0 ((λ e. omega (arith, e)), tt);
  request_back = λ r bs k h. ap ok (sym (known r bs h).1);
  response_line = λ r bs h. absurd (cc);
  response_back = λ r bs k i h. absurd (cc);
}

abbrev sender : Codec
sender = record { input = []; output = 5 ∷ newline ∷ []; max_payload_size = pos 2 }

abbrev receiver : Codec
receiver = record { input = 1 ∷ newline ∷ 7 ∷ []; output = []; max_payload_size = pos 2 }

ping_has_method : ping.method ≢ ""
ping_has_method p = let q : false ≡ true = (eq_iff "ping" "").1 p in cc

ping_sent : default_request ping ≡ sent_ping
unfolding default_request
ping_sent = refl

read-write_request_example :
    Exchanged
      (write_request ping_json written ping sender)
      (read_request ping_json none receiver)
      sender
      receiver
      (1 ∷ [])
      (7 ∷ [])
      (default_request ping)
read-write_request_example =
    read-write_request ping_json is_two ping_json-IsJson (1 ∷ []) (7 ∷ []) sender receiver ping
      (inl refl) ping_has_method refl (rw ping_sent refl) (omega arith, omega arith, refl)
