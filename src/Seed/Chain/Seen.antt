-- ===== src/Seed/Chain/Seen.antt =====
-- What the live funding of the demo seed waits for (backend/src/scripts/demo-seed.ts).
use sorosense.Base.{ℕ, zero, suc, Bool, true, Bool-cases, some, ◌≡◌, ap, ◌∙◌, inl, inr}
use mathlib.Core.Path.{ap₂}
use sorosense.Seam.{Address}
use sorosense.Seed.Proven.{await-some}
use sorosense.Seed.Config.{SeedConfig}
use sorosense.Seed.Chain.{Stellar, live_is_funded, look, live_fund, friendly}

module _ {W : Type 0} (config : SeedConfig) (stellar : Stellar W) where
  look_seen :
      (n : ℕ) (address : Address) (w : W) {found : Bool} {end : W}
      → look config stellar n address w ≡ (some found, end)
      → (start : W) × (live_is_funded config stellar address start ≡ (some true, end))
  unfolding look
  look_seen zero address w h = absurd (cc h)
  look_seen (suc n) address w h =
      let (found, (w', (read, h))) = await-some _ _ h in
      elim (Bool-cases found) [
        | inl seen ↦ (w, read ∙ ap₂ (λ b v. (some b, v)) seen (ap (λ u. u.1) (rw seen at h)))
        | inr unseen ↦ look_seen n address (stellar.sleep w') (rw unseen at h)
      ]

  -- Funding that resolves has seen the account on Horizon in its last look.
  pub live_fund_seen :
      (address : Address) (w : W) (found : Bool) (end : W)
      → live_fund config stellar address w ≡ (some found, end)
      → (start : W) × (live_is_funded config stellar address start ≡ (some true, end))
  unfolding live_fund
  live_fund_seen address w found end h =
      let (status, (w', (_, h))) = await-some _ _ h in
      elim (Bool-cases (friendly status)) [
        | inl fine ↦ look_seen 15 address w' (rw fine at h)
        | inr bad ↦ absurd (cc (rw bad at h))
      ]
