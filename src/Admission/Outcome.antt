-- ===== src/Admission/Outcome.antt =====
-- What `reserve` answers, and what no operation changes.
use nonebot_plugin_moellmcha.Prelude.{ℕ, ◌<◌, ◌≡◌, Option, none, some, arith}
use nonebot_plugin_moellmcha.Admission.{
  Controller, Rejection, accepted, rejected, count_rejected, reserve, reserve_key,
}

module _ {K : Type 0} (dec : Discrete K) where
  reserve_key_rejected :
      (c : Controller K) (key : Option K) (limit : Option ℕ) (reason : Rejection) (g : Controller K)
      → reserve_key dec key limit c ≡ rejected reason g
      → count_rejected c ≡ g
  unfolding reserve_key
  reserve_key_rejected c none limit reason g e = cc
  reserve_key_rejected c (some key) none reason g e = cc
  reserve_key_rejected c (some key) (some m) reason g e = ground arith

  -- a refusal only counts itself
  pub reserve_rejected :
      (c : Controller K) (key : Option K) (reason : Rejection) (g : Controller K)
      → reserve dec key c ≡ rejected reason g
      → count_rejected c ≡ g
  unfolding reserve
  reserve_rejected c key reason g e =
      ground (arith, reserve_key_rejected c key c.max_per_key reason g)

  pub reserve_accepted :
      (c : Controller K) (key : Option K) (g : Controller K)
      → reserve dec key c ≡ accepted g
      → (c.pending < c.max_pending) × (reserve_key dec key c.max_per_key c ≡ accepted g)
  unfolding reserve
  reserve_accepted c key g e = (ground arith, ground arith)
