-- ===== src/Fs/Requests/Replies.antt =====
-- What `fsopen`, `fsread` and `fswrite` return.
use wl.Prelude.{ℕ, ◌≡◌, ◌≢◌, Bool, true, false, none, some}
use wl.Util.NumTab.Numbers.{IsTaken, IsNumTab}
use wl.Fs.State.{Reply, Aux, rerror, Request, Sent, sent}
use wl.Fs.Requests.{Outcome, done, failed, exited, starved, stuck}

module _ (send : Request → Aux → Sent) where
  -- With tagp: the tag of the request that was sent. Without: the reply has the type asked for, and
  -- its tag is free again. For -1, NOTAG is stored where tagp is there.
  abbrev pub Requested :
      {A : Type 0} → Request → ℕ → Bool → A → (Reply → A) → Aux → Outcome A → Type 0
  Requested q kind true now f a (done v tagp a') =
      (t : ℕ) × (tagp ≡ some t) × (send q a ≡ sent t a') × (v ≡ now)
  Requested q kind false now f a (done v tagp a') =
      (r : Reply) × (v ≡ f r)
      × (tagp ≡ none)
      × (r.kind ≡ kind)
      × (r.kind ≢ rerror)
      × IsNumTab a'.tag
      × (¬ IsTaken a'.tag r.tag)
  Requested q kind true now f a (failed tagp a') = (tagp ≡ some 0xffff) × IsNumTab a'.tag
  Requested q kind false now f a (failed tagp a') = (tagp ≡ none) × IsNumTab a'.tag
  Requested q kind async now f a exited = Unit
  Requested q kind async now f a (starved a') = Unit
  Requested q kind async now f a stuck = ⊥
