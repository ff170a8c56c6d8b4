-- ===== src/Collector/Proxy/Numbers.antt =====
-- That the number of a request can be read from its id.
use yonwork_benchmark.Prelude.{
  ℕ, zero, suc, String, ◌≡◌, refl, concat, count_chars, drop_chars, ◌∙◌, ap,
}
use yonwork_benchmark.Models.Ids.{decimal}
use yonwork_benchmark.Models.Ids.Decimal.{read_decimal, read_decimal-decimal}
use yonwork_benchmark.Collector.Proxy.Requests.{zeros, request_id}

drop_chars-concat : (s t : String) → drop_chars (count_chars s) (concat s t) ≡ t
unfolding drop_chars count_chars concat
drop_chars-concat String.[] t = refl
drop_chars-concat (String.◌∷◌ c s) t = drop_chars-concat s t

read_decimal-zeros : (n : ℕ) (s : String) → read_decimal 0 (concat (zeros n) s) ≡ read_decimal 0 s
unfolding read_decimal concat
read_decimal-zeros zero s = refl
read_decimal-zeros (suc zero) s = refl
read_decimal-zeros (suc (suc zero)) s = refl
read_decimal-zeros (suc (suc (suc zero))) s = refl
read_decimal-zeros (suc (suc (suc (suc zero)))) s = refl
read_decimal-zeros (suc (suc (suc (suc (suc n))))) s = refl

-- The number after the proxy's id and the dash.
unfoldable pub read_sequence : String → String → ℕ
unfolding read_decimal drop_chars count_chars
read_sequence proxy_id id = read_decimal 0 (drop_chars 1 (drop_chars (count_chars proxy_id) id))

-- The sequence number of a request can be read from its id, whatever the number is, also when it
-- has more than the five digits that ids are padded to.
pub read_sequence-request_id :
    (proxy_id : String) (n : ℕ) → read_sequence proxy_id (request_id proxy_id n) ≡ n
unfolding read_sequence request_id concat
read_sequence-request_id proxy_id n =
    ap (λ s. read_decimal 0 (drop_chars 1 s)) (drop_chars-concat proxy_id _)
    ∙ read_decimal-zeros (count_chars (decimal n)) (decimal n)
    ∙ read_decimal-decimal n
