-- ===== src/Plugins/Process/Calls/Routed.antt =====
-- A response reaches the call that it answers.
use auxitalk.Base.{
  ℕ, suc, ◌+◌, ◌%◌, ◌≤◌, ◌<◌, ◌^◌, String, none, some, Result, ◌≡◌, refl, sym, ap, ◌∙◌, inl, inr,
  arith, string_eq, if-elim, concat, not,
}
use Prim.Native.String
use text.Mathlib.TextLemmas.{append-nil}
use auxitalk.Base.Decimal.{decimal}
use auxitalk.Base.Decimal.Read.{decimal-injective_tail}
use auxitalk.Base.Map.{lookup, IsMap, put-IsMap, delete-IsMap}
use auxitalk.Base.Map.Range.{put-found, delete-found, lookup-delete_same}
use auxitalk.Plugins.Process.{PluginProcess, ProcessSpec, ProcessOptions, new_process}
use auxitalk.Plugins.Process.Calls.{call_id, open_call, delete_pending, take_response}

-- What the calls and the responses of a plugin do, in any order, while fewer than 2 ^ 64 ids are
-- given out; calls give up, and responses come, only with ids in P. The rest of the process changes
-- at will.
pub data Traffic (P : String → Type 0) (p : PluginProcess) : PluginProcess → Type 0 where
  here : Traffic P p p
  opened : {q : PluginProcess} → Traffic P p q → suc q.seq < 2 ^ 64 → Traffic P p (open_call q).0
  given_up :
      {q : PluginProcess} (id : String) → Traffic P p q → P id → Traffic P p (delete_pending id q)
  responded :
      {q : PluginProcess} (id : String) → Traffic P p q → P id → Traffic P p (take_response id q).0
  aside :
      {q : PluginProcess} (r : PluginProcess)
      → Traffic P p q
      → r.spec ≡ q.spec
      → r.seq ≡ q.seq
      → r.pending ≡ q.pending
      → Traffic P p r

-- The channel under an id is the one of the call with that id.
pub record IsRouted (spec : ProcessSpec) (p : PluginProcess) : Type 0 where
  pub spec_same : p.spec ≡ spec
  pub seq_fits : p.seq < 2 ^ 64
  pub distinct : IsMap p.pending
  pub pending_lem :
      (id : String) (n : ℕ) → lookup id p.pending ≡ some n → (id ≡ call_id spec n) × (n ≤ p.seq)

pub call_id-injective :
    (spec : ProcessSpec) (n m : ℕ)
    → n < 2 ^ 64
    → m < 2 ^ 64
    → call_id spec n ≡ call_id spec m
    → n ≡ m
unfolding call_id concat
call_id-injective spec n m hn hm p =
    decimal-injective_tail spec.id spec.id n m hn hm (sym (whole n) ∙ p ∙ whole m)
  where
    whole : (k : ℕ) → call_id spec k ≡ String.◌++◌ spec.id (String.◌++◌ "-" (decimal k))
    whole k = ap (λ s. String.◌++◌ spec.id (String.◌++◌ "-" s)) (append-nil (decimal k))

pub open_call-IsRouted :
    (spec : ProcessSpec) (p : PluginProcess)
    → suc p.seq < 2 ^ 64
    → IsRouted spec p
    → IsRouted spec (open_call p).0
unfolding open_call
open_call-IsRouted spec p small h =
    if-elim {A = PluginProcess × Result String} (λ o. IsRouted spec o.0) (not p.running) (λ _. h)
      (λ _. rw new (record {
        spec_same = h.spec_same;
        seq_fits = small;
        distinct = put-IsMap (call_id p.spec (suc p.seq)) (suc p.seq) p.pending h.distinct;
        pending_lem = λ id n e.
            elim (put-found (call_id p.spec (suc p.seq)) id (suc p.seq) n p.pending e) [
              | inl (i, q) ↦ (
                i ∙ ap (λ s. call_id s (suc p.seq)) h.spec_same ∙ ap (call_id spec) q,
                omega (arith, q),
              )
              | inr old ↦ ((h.pending_lem id n old).0, omega (arith, (h.pending_lem id n old).1))
            ];
      }))
  where
    new : (p.seq + 1) % 2 ^ 64 ≡ suc p.seq
    new = omega arith

pub delete-IsRouted :
    (spec : ProcessSpec) (id : String) (p : PluginProcess)
    → IsRouted spec p
    → IsRouted spec (delete_pending id p)
unfolding delete_pending
delete-IsRouted spec id p h = record {
  spec_same = h.spec_same;
  seq_fits = h.seq_fits;
  distinct = delete-IsMap id p.pending h.distinct;
  pending_lem = λ j n e. h.pending_lem j n (delete-found id j n p.pending h.distinct e);
}

pub aside-IsRouted :
    (spec : ProcessSpec) (q r : PluginProcess)
    → r.spec ≡ q.spec
    → r.seq ≡ q.seq
    → r.pending ≡ q.pending
    → IsRouted spec q
    → IsRouted spec r
aside-IsRouted spec q r a b c h = record {
  spec_same = a ∙ h.spec_same;
  seq_fits = omega (arith, b, h.seq_fits);
  distinct = rw c h.distinct;
  pending_lem = λ j n e.
      let old = h.pending_lem j n (ap (lookup j) (sym c) ∙ e) in (old.0, omega (arith, b, old.1));
}

pub Traffic-IsRouted :
    {P : String → Type 0} (spec : ProcessSpec) {p q : PluginProcess}
    → Traffic P p q
    → IsRouted spec p
    → IsRouted spec q
unfolding take_response delete_pending
Traffic-IsRouted spec here h = h
Traffic-IsRouted spec (opened {q} t small) h =
    open_call-IsRouted spec q small (Traffic-IsRouted spec t h)
Traffic-IsRouted spec (given_up {q} id t i) h =
    delete-IsRouted spec id q (Traffic-IsRouted spec t h)
Traffic-IsRouted spec (responded {q} id t i) h =
    delete-IsRouted spec id q (Traffic-IsRouted spec t h)
Traffic-IsRouted spec (aside {q} r t a b c) h =
    aside-IsRouted spec q r a b c (Traffic-IsRouted spec t h)

pub new-IsRouted :
    (spec : ProcessSpec) (opts : ProcessOptions) → IsRouted spec (new_process spec opts)
unfolding new_process lookup
new-IsRouted spec opts = record {
  spec_same = refl;
  seq_fits = omega arith;
  distinct = tt;
  pending_lem = λ id n e. absurd (cc);
}

-- While fewer than 2 ^ 64 ids are given out: whatever calls and responses came before, a response
-- with the id of call n, for a 64-bit n, reaches the channel of call n if it reaches one, and the next
-- response with the id reaches none.
pub response-reaches_call :
    (spec : ProcessSpec) (opts : ProcessOptions) (p : PluginProcess) (n k : ℕ)
    → Traffic (λ _. Unit) (new_process spec opts) p
    → n < 2 ^ 64
    → (take_response (call_id spec n) p).1 ≡ some k
    → (k ≡ n) × ((take_response (call_id spec n) (take_response (call_id spec n) p).0).1 ≡ none)
unfolding take_response
response-reaches_call spec opts p n k t fits e =
    let routed = Traffic-IsRouted spec t (new-IsRouted spec opts) in
    let (same, small) = routed.pending_lem (call_id spec n) k e in
    (
      sym (call_id-injective spec n k fits (omega (arith, routed.seq_fits, small)) same),
      lookup-delete_same (call_id spec n) p.pending routed.distinct,
    )
