-- ===== src/Collector/Proxy/Order.antt =====
-- A hook reports a trace before or after the request of that trace arrives: the result is the same.
use mathlib.Core.Path.{ap₂}
use yonwork_benchmark.Prelude.{
  if◌then◌else◌, ℕ, String, Bool, true, false, none, some, List, [], ◌∷◌, ◌++◌, ◌≡◌, refl, length,
  leb, Bool-cases, inl, inr, ap, sym, ◌∙◌, All, ◌&&◌, not, concat,
}
use Prim.Native.Char.{Char}
use yonwork_benchmark.Collector.Ledger.{Attribution, ModelRequestRecord}
use yonwork_benchmark.Collector.Proxy.{
  Registration, TraceBinding, Proxy, write_all, find_run, update_run,
}
use yonwork_benchmark.Collector.Proxy.Trace.{
  add_request, put_in_run, put_if_found, is_rejected, apply_to, Key, parse_traceparent,
  find_binding, resolve_hook_run, bind_records, carries, keep_record, change_record, is_late,
  apply_binding, is_key, max_trace_bindings, same_key,
}
use yonwork_benchmark.Collector.Proxy.Bind.{
  bind_key, insert_binding, settle_binding, new_binding, drop_oldest, after_binding,
}
use yonwork_benchmark.Collector.Proxy.Requests.{
  store, arrive, draft, Request, attribute, attribute_in, combine, find_key,
}
use yonwork_benchmark.Collector.Proxy.Listing.{str_eq_self}

module _ (lower_char : Char → String) (key : Key) where
  -- Records of other traces are left alone.
  bind_records-skip :
      (b : TraceBinding) (rs rest : List ModelRequestRecord) (runs : List Registration)
      → All (λ r. carries lower_char key r ≡ false) rs
      → bind_records lower_char key b (rs ++ rest) runs ≡ record {
        records = rs ++ (bind_records lower_char key b rest runs).records;
        runs = (bind_records lower_char key b rest runs).runs;
        rewrite = (bind_records lower_char key b rest runs).rewrite;
      }
  unfolding bind_records keep_record
  bind_records-skip b [] rest runs h = refl
  bind_records-skip b (r ∷ rs) rest runs h =
      rw (h.0, bind_records) (ap (keep_record r) (bind_records-skip b rs rest runs h.1))

  bind_records-none :
      (b : TraceBinding) (rs : List ModelRequestRecord) (runs : List Registration)
      → All (λ r. carries lower_char key r ≡ false) rs
      → bind_records lower_char key b rs runs ≡ record { records = rs; runs = runs; rewrite = [] }
  unfolding bind_records keep_record
  bind_records-none b [] runs h = refl
  bind_records-none b (r ∷ rs) runs h =
      rw (h.0, bind_records) (ap (keep_record r) (bind_records-none b rs runs h.1))

  -- A report about a trace that has no binding yet.
  bind_key-new :
      (run_id resolved source : String) (p : Proxy)
      → resolve_hook_run run_id p.runs ≡ some resolved
      → find_binding key p.bindings ≡ none
      → (bind_key lower_char key run_id source p).1
        ≡ after_binding
            (bind_records lower_char key (new_binding key resolved source) p.records p.runs)
            (insert_binding (new_binding key resolved source) p.bindings)
            p
  unfolding bind_key settle_binding
  bind_key-new run_id resolved source p h k = rw (h, bind_key) (rw (k, settle_binding) refl)

  find_binding-snoc :
      (b : TraceBinding) (bs : List TraceBinding)
      → find_binding key bs ≡ none
      → is_key key b ≡ true
      → find_binding key (bs ++ b ∷ []) ≡ some b
  unfolding find_binding
  find_binding-snoc b [] h k = rw k refl
  find_binding-snoc b (x ∷ xs) h k = elim (Bool-cases (is_key key x)) [
    | inl e ↦ absurd (cc (rw (e, find_binding) at h))
    | inr e ↦ rw (e, find_binding) (find_binding-snoc b xs (rw (e, find_binding) at h) k)
  ]

  find_binding-drop_oldest :
      (bs : List TraceBinding)
      → find_binding key bs ≡ none
      → find_binding key (drop_oldest bs) ≡ none
  unfolding find_binding
  find_binding-drop_oldest [] h = h
  find_binding-drop_oldest (x ∷ xs) h = elim (Bool-cases (is_key key x)) [
    | inl e ↦ absurd (cc (rw (e, find_binding) at h))
    | inr e ↦ rw (e, find_binding) at h
  ]

  find_binding-insert_binding :
      (b : TraceBinding) (bs : List TraceBinding)
      → find_binding key bs ≡ none
      → is_key key b ≡ true
      → find_binding key (insert_binding b bs) ≡ some b
  unfolding insert_binding
  find_binding-insert_binding b bs h k = elim (Bool-cases (leb max_trace_bindings (length bs))) [
    | inl e ↦ rw e (find_binding-snoc b (drop_oldest bs) (find_binding-drop_oldest bs h) k)
    | inr e ↦ rw e (find_binding-snoc b bs h k)
  ]

-- A request without a claim of its own and a hook's report name the same trace, and the report
-- names the registered round `g`. Nothing is known of the trace yet. The round is closed exactly if
-- the request's number comes after its closing.
pub record Meet (lower_char : Char → String) (key : Key) (run_id : String) (q : Request) (n : ℕ)
    (g : Registration) (p : Proxy) : Type 0 where
  pub traced : parse_traceparent lower_char (q.header "traceparent") ≡ some key
  pub resolved : resolve_hook_run run_id p.runs ≡ some g.run_id
  pub found : find_run g.run_id p.runs ≡ some g
  pub unbound : find_binding key p.bindings ≡ none
  pub unseen : All (λ r. carries lower_char key r ≡ false) p.records
  pub timed : is_late g n ≡ g.closed

module _ (lower_char : Char → String) (key : Key) (run_id source now : String) (q : Request) (n : ℕ)
    (g : Registration) (p : Proxy) (m : Meet lower_char key run_id q n g p) where
  abbrev b : TraceBinding
  b = new_binding key g.run_id source

  abbrev r : ModelRequestRecord
  r = draft lower_char p.proxy_id n now q

  abbrev after_bind : Proxy
  after_bind = record p { bindings = insert_binding b p.bindings }

  bind_first : (bind_key lower_char key run_id source p).1 ≡ after_bind
  unfolding after_binding write_all
  bind_first =
      bind_key-new lower_char key run_id g.run_id source p m.resolved m.unbound
      ∙ ap (λ o. after_binding o (insert_binding b p.bindings) p)
          (bind_records-none lower_char key b p.records p.runs m.unseen)

  abbrev stored : ModelRequestRecord × List Registration
  stored = attribute_in (concat "traceparent+" source) (some g) p.runs r

  bind_then_arrive :
      arrive lower_char none r (bind_key lower_char key run_id source p).1 ≡ store stored after_bind
  unfolding arrive draft attribute combine
  bind_then_arrive =
      ap (arrive lower_char none r) bind_first
      ∙ ap (λ o. store (attribute (combine none o) p.runs r) after_bind)
          (ap (λ k. find_key k after_bind.bindings) m.traced
            ∙ find_binding-insert_binding lower_char key b p.bindings m.unbound is_b)
      ∙ ap (λ o. store (attribute_in (concat "traceparent+" source) o p.runs r) after_bind) m.found
    where
      is_b : is_key key b ≡ true
      is_b = rw (str_eq_self key.0, str_eq_self key.1) refl

  arrive_first : arrive lower_char none r p ≡ record p { records = p.records ++ r ∷ [] }
  unfolding arrive draft attribute combine
  arrive_first =
      ap (λ o. store (attribute (combine none o) p.runs r) p)
        (ap (λ k. find_key k p.bindings) m.traced ∙ m.unbound)

  carried : carries lower_char key r ≡ true
  unfolding carries draft
  carried =
      ap (λ k. not (is_rejected Attribution.unattributed) && same_key key k) m.traced
      ∙ ap₂ ◌&&◌ (str_eq_self key.0) (str_eq_self key.1)

  applied : apply_binding b r p.runs ≡ some stored
  unfolding apply_binding apply_to put_if_found put_in_run attribute_in draft
  applied =
      ap (λ o. put_if_found source o r p.runs) m.found ∙ ap (λ late. some (in_round late)) m.timed
    where
      in_round : Bool → ModelRequestRecord × List Registration
      in_round late = (
        record r {
          run_id = some g.run_id;
          product = some g.product;
          attribution = if late then Attribution.late else Attribution.attributed;
          attribution_source = concat "traceparent+" source;
        },
        update_run g.run_id (add_request r.request_id) p.runs,
      )

  bind_last :
      bind_records lower_char key b (r ∷ []) p.runs
      ≡ record { records = stored.0 ∷ []; runs = stored.1; rewrite = [] }
  unfolding bind_records draft change_record attribute_in
  bind_last = rw (carried, bind_records) (rw (applied, bind_records) refl)

  arrive_then_bind :
      (bind_key lower_char key run_id source (arrive lower_char none r p)).1
      ≡ store stored after_bind
  unfolding after_binding write_all
  arrive_then_bind =
      ap (λ x. (bind_key lower_char key run_id source x).1) arrive_first
      ∙ bind_key-new lower_char key run_id g.run_id source
          (record p { records = p.records ++ r ∷ [] }) m.resolved m.unbound
      ∙ ap (λ o. after_binding o (insert_binding b p.bindings) p)
          (bind_records-skip lower_char key b p.records (r ∷ []) p.runs m.unseen
            ∙ ap
                (λ o. record {
                  records = p.records ++ o.records;
                  runs = o.runs;
                  rewrite = o.rewrite;
                })
                bind_last)

-- A hook's report of a trace and the arrival of a request of that trace may come in either order:
-- the state of the proxy is the same, if the report names a registered round, the request makes no
-- claim of its own, nothing is known of the trace, and the round was closed exactly if it was closed
-- before the number of the request was taken.
pub bind_either_order :
    (lower_char : Char → String) (key : Key) (run_id source now : String) (q : Request) (n : ℕ)
    (g : Registration) (p : Proxy)
    → Meet lower_char key run_id q n g p
    → arrive lower_char none
        (draft lower_char p.proxy_id n now q)
        (bind_key lower_char key run_id source p).1
      ≡ (bind_key lower_char key run_id source
          (arrive lower_char none (draft lower_char p.proxy_id n now q) p)).1
bind_either_order lower_char key run_id source now q n g p m =
    bind_then_arrive lower_char key run_id source now q n g p m
    ∙ sym (arrive_then_bind lower_char key run_id source now q n g p m)
