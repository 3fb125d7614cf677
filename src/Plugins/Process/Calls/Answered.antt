-- ===== src/Plugins/Process/Calls/Answered.antt =====
-- A call is answered, whatever other calls and responses there are meanwhile.
use auxitalk.Base.{
  ℕ, suc, ◌+◌, ◌%◌, ◌≤◌, ◌<◌, ◌^◌, String, some, Result, ok, err, ◌≡◌, sym, ap, ◌∙◌, ◌≢◌, arith,
  string_eq, if-elim, not,
}
use auxitalk.Base.Map.{lookup, put}
use auxitalk.Base.Map.Range.{lookup-put_same, lookup-put_other, lookup-delete_other}
use auxitalk.Plugins.Process.{PluginProcess, ProcessSpec, ProcessOptions, new_process}
use auxitalk.Plugins.Process.Calls.{call_id, open_call, delete_pending, take_response}
use auxitalk.Plugins.Process.Calls.Routed.{
  Traffic, here, opened, given_up, responded, aside, IsRouted, call_id-injective,
  open_call-IsRouted, delete-IsRouted, aside-IsRouted, Traffic-IsRouted, new-IsRouted,
}

-- A call is there from its first section on.
pub record IsOpen (spec : ProcessSpec) (n : ℕ) (p : PluginProcess) : Type 0 where
  pub routed : IsRouted spec p
  pub given : n ≤ p.seq
  pub found : lookup (call_id spec n) p.pending ≡ some n

ok-injective : {s t : String} → ok s ≡ ok t → s ≡ t
ok-injective {s} p = ap (λ r. elim r [ ok u ↦ u | err e ↦ s ]) p

open_call-IsOpen :
    (spec : ProcessSpec) (p : PluginProcess) (id : String)
    → suc p.seq < 2 ^ 64
    → (open_call p).1 ≡ ok id
    → IsRouted spec p
    → (id ≡ call_id spec (suc p.seq)) × IsOpen spec (suc p.seq) (open_call p).0
unfolding open_call
open_call-IsOpen spec p id small e h =
    if-elim {A = PluginProcess × Result String}
      (λ o.
        o.1 ≡ ok id
        → IsRouted spec o.0
        → (id ≡ call_id spec (suc p.seq)) × IsOpen spec (suc p.seq) o.0)
      (not p.running) (λ _ f. absurd (cc))
      (λ _. rw (new) (λ f g. (
        sym (ok-injective f) ∙ ap (λ s. call_id s (suc p.seq)) h.spec_same,
        record {
          routed = g;
          given = omega arith;
          found =
              ap
                (λ s.
                  lookup (call_id s (suc p.seq))
                    (put (call_id p.spec (suc p.seq)) (suc p.seq) p.pending))
                (sym h.spec_same)
              ∙ lookup-put_same (call_id p.spec (suc p.seq)) (suc p.seq) p.pending;
        },
      )))
      e (open_call-IsRouted spec p small h)
  where
    new : (p.seq + 1) % 2 ^ 64 ≡ suc p.seq
    new = omega arith

call_id-fresh :
    (spec : ProcessSpec) (n : ℕ) (p : PluginProcess)
    → n ≤ p.seq
    → suc p.seq < 2 ^ 64
    → p.spec ≡ spec
    → call_id p.spec (suc p.seq) ≢ call_id spec n
call_id-fresh spec n p less small same e =
    let eq =
      call_id-injective spec (suc p.seq) n small (omega arith)
        (ap (λ s. call_id s (suc p.seq)) (sym same) ∙ e) in
    omega (arith, eq)

-- What other calls and other responses do leaves a call open.
opened-IsOpen :
    (spec : ProcessSpec) (n : ℕ) (p : PluginProcess)
    → suc p.seq < 2 ^ 64
    → IsOpen spec n p
    → IsOpen spec n (open_call p).0
unfolding open_call
opened-IsOpen spec n p small h =
    if-elim {A = PluginProcess × Result String} (λ o. IsRouted spec o.0 → IsOpen spec n o.0)
      (not p.running) (λ _ g. h)
      (λ _. rw (new) (λ g. record {
        routed = g;
        given = omega (arith, h.given);
        found =
            lookup-put_other (call_id p.spec (suc p.seq)) (call_id spec n) (suc p.seq) p.pending
              (call_id-fresh spec n p h.given small h.routed.spec_same)
            ∙ h.found;
      }))
      (open_call-IsRouted spec p small h.routed)
  where
    new : (p.seq + 1) % 2 ^ 64 ≡ suc p.seq
    new = omega arith

deleted-IsOpen :
    (spec : ProcessSpec) (n : ℕ) (id : String) (p : PluginProcess)
    → id ≢ call_id spec n
    → IsOpen spec n p
    → IsOpen spec n (delete_pending id p)
unfolding delete_pending
deleted-IsOpen spec n id p d h = record {
  routed = delete-IsRouted spec id p h.routed;
  given = h.given;
  found = lookup-delete_other id (call_id spec n) p.pending h.routed.distinct d ∙ h.found;
}

spared-IsOpen :
    (spec : ProcessSpec) (n : ℕ) {p q : PluginProcess}
    → Traffic (λ j. j ≢ call_id spec n) p q
    → IsOpen spec n p
    → IsOpen spec n q
unfolding take_response delete_pending
spared-IsOpen spec n here h = h
spared-IsOpen spec n (opened {q} t small) h =
    opened-IsOpen spec n q small (spared-IsOpen spec n t h)
spared-IsOpen spec n (given_up {q} id t i) h =
    deleted-IsOpen spec n id q i (spared-IsOpen spec n t h)
spared-IsOpen spec n (responded {q} id t i) h =
    deleted-IsOpen spec n id q i (spared-IsOpen spec n t h)
spared-IsOpen spec n (aside {q} r t a b c) h =
    let old = spared-IsOpen spec n t h in
    record {
      routed = aside-IsRouted spec q r a b c old.routed;
      given = omega (arith, b, old.given);
      found = ap (lookup (call_id spec n)) c ∙ old.found;
    }

-- While fewer than 2 ^ 64 ids are given out: a call that gets an id, after whatever calls and
-- responses, gets the response with this id in its own channel, whatever calls and other responses
-- there are before it.
pub call-answered :
    (spec : ProcessSpec) (opts : ProcessOptions) (p q : PluginProcess) (id : String)
    → Traffic (λ _. Unit) (new_process spec opts) p
    → suc p.seq < 2 ^ 64
    → (open_call p).1 ≡ ok id
    → Traffic (λ j. j ≢ id) (open_call p).0 q
    → (take_response id q).1 ≡ some (suc p.seq)
unfolding take_response
call-answered spec opts p q id before small e between =
    let (same, was_open) =
      open_call-IsOpen spec p id small e (Traffic-IsRouted spec before (new-IsRouted spec opts)) in
    rw same (spared-IsOpen spec (suc p.seq) (rw same at between) was_open).found
