-- ===== src/Collector/Relay/Chunks.antt =====
-- How a response is cut into chunks makes no difference.
use yonwork_benchmark.Prelude.{
  ℕ, String, Option, none, some, List, [], ◌∷◌, concat, ◌==◌, ◌≡◌, refl, ◌∙◌, ap, sym, Bool-cases,
  Option-cases, inl, inr,
}
use Prim.Native.Char.{code}
use yonwork_benchmark.Json.{Json}
use yonwork_benchmark.Collector.Ledger.{ModelRequestRecord}
use yonwork_benchmark.Collector.Relay.{Scan, scan, scan_from, scan_all, scan_line}

-- The chunks as one text.
unfoldable pub join_chunks : List String → String
unfolding concat
join_chunks [] = ""
join_chunks (chunk ∷ chunks) = concat chunk (join_chunks chunks)

module _ (read_json : String → Option Json) (elapsed : ℕ) where
  then_scan : String → Option Scan → Option Scan
  then_scan text none = none
  then_scan text (some s) = scan read_json elapsed text s

  scan_from-concat :
      (a b line : String) (r : ModelRequestRecord)
      → scan_from read_json elapsed line (concat a b) r
        ≡ then_scan b (scan_from read_json elapsed line a r)
  unfolding scan_from scan concat then_scan
  scan_from-concat String.[] b line r = refl
  scan_from-concat (String.◌∷◌ c a) b line r = elim (Bool-cases (code c == 10)) [
    | inr e ↦ rw (e, scan_from) (scan_from-concat a b (concat line (String.◌∷◌ c "")) r)
    | inl e ↦ elim (Option-cases (scan_line read_json elapsed line r)) [
      | inl f ↦ rw (e, f, scan_from) refl
      | inr (r', f) ↦ rw (e, f, scan_from) (scan_from-concat a b "" r')
    ]
  ]

  -- Scanning the chunks of a stream one after the other, at one time, gives the same record and the
  -- same unfinished line, or raises in the same cases, as scanning all their text at once.
  pub scan_all-join_chunks :
      (chunks : List String) (s : Scan)
      → scan_all read_json elapsed chunks s ≡ scan read_json elapsed (join_chunks chunks) s
  unfolding scan_all join_chunks scan scan_from then_scan
  scan_all-join_chunks [] s = refl
  scan_all-join_chunks (chunk ∷ chunks) s = elim (Option-cases (scan read_json elapsed chunk s)) [
    | inl e ↦
        rw (e, scan_all)
          (sym (
            scan_from-concat chunk (join_chunks chunks) s.pending s.entry
            ∙ ap (then_scan (join_chunks chunks)) e))
    | inr (next, e) ↦
        rw (e, scan_all)
          (scan_all-join_chunks chunks next
            ∙ sym (
                scan_from-concat chunk (join_chunks chunks) s.pending s.entry
                ∙ ap (then_scan (join_chunks chunks)) e))
  ]
