-- ===== src/Compositor/Surface/Listeners.antt =====
-- No destroyed buffer stays in a surface, and no listener of a freed surface stays linked.
use wl.Prelude.{
  Bool, false, ℕ, ◌≡◌, ◌≢◌, refl, ap, ap₂, sym, ◌∙◌, inl, inr, true, Option, none, some,
  if◌then◌else◌, arith, Bool-cases,
}
use wl.Prelude.Int.{ℤ}
use wl.Compositor.Surface.{
  create_surface, SurfaceState, Surface, unlisten, has_buffer, set_buffer, attach, damage, frame,
  same_buffer, take_callbacks, release_buffer, take_buffer, commit, state_buffer_destroyed,
  buffer_destroyed, destroy_surface,
}

-- Each of the two states listens to the end of its buffer, and of no other.
pub record IsSurface (s : Surface) : Type 0 where
  pub pending : s.pending.listening ≡ s.pending.buffer
  pub state : s.state.listening ≡ s.state.buffer

-- The commit of a role, which leaves the buffers and their listeners.
abbrev pub KeepsBuffers : (ℕ → Surface → Surface) → Type 0
KeepsBuffers run = (w : ℕ) (s : Surface) → IsSurface s → IsSurface (run w s)

set_buffer_lem :
    (b : Option ℕ) (s : SurfaceState)
    → s.listening ≡ none
    → (set_buffer b s).listening ≡ (set_buffer b s).buffer
set_buffer_lem none s e = e
set_buffer_lem (some b) s e = refl

unlistened :
    (s : SurfaceState)
    → s.listening ≡ s.buffer
    → (if has_buffer s then unlisten s else s).listening ≡ none
unlistened s e = step s.buffer refl
  where
    step : (b : Option ℕ) → s.buffer ≡ b → (if has_buffer s then unlisten s else s).listening ≡ none
    step none q = ground (arith, e, q)
    step (some b) q = ground (arith, e, q)

attach-IsSurface : (b : Option ℕ) (s : Surface) → IsSurface s → IsSurface (attach b s)
unfolding attach
attach-IsSurface b s h = record {
  pending = set_buffer_lem b _ (unlistened s.pending h.pending);
  state = h.state;
}

same_buffer_lem : (a b : Option ℕ) → same_buffer a b ≡ true → a ≡ b
same_buffer_lem none none e = refl
same_buffer_lem none (some b) e = absurd (ground (arith, e))
same_buffer_lem (some a) none e = absurd (ground (arith, e))
same_buffer_lem (some a) (some b) e = ground (arith, e)

release_listening : (s : Surface) → IsSurface s → (release_buffer s).state.listening ≡ none
release_listening s h = step s.state.buffer refl
  where
    step : (b : Option ℕ) → s.state.buffer ≡ b → (release_buffer s).state.listening ≡ none
    step none q = ground (arith, h.state, q)
    step (some b) q = ground (arith, q)

release_pending : (s : Surface) → (release_buffer s).pending ≡ s.pending
release_pending s = step s.state.buffer refl
  where
    step : (b : Option ℕ) → s.state.buffer ≡ b → (release_buffer s).pending ≡ s.pending
    step none q = ground (arith, q)
    step (some b) q = ground (arith, q)

take_buffer-IsSurface : (s : Surface) → IsSurface s → IsSurface (take_buffer s)
take_buffer-IsSurface s h = elim (Bool-cases (same_buffer s.state.buffer s.pending.buffer)) [
  | inl e ↦ rw e h
  | inr e ↦ rw e (record {
    pending =
        ap (λ (p : SurfaceState). p.listening) (release_pending s)
        ∙ (h.pending ∙ sym (ap (λ (p : SurfaceState). p.buffer) (release_pending s)));
    state =
        set_buffer_lem (release_buffer s).pending.buffer (release_buffer s).state
          (release_listening s h);
  })
]

commit-IsSurface :
    (run : ℕ → Surface → Surface) (s : Surface)
    → KeepsBuffers run
    → IsSurface s
    → IsSurface (commit run s)
unfolding commit
commit-IsSurface run s law h = take_buffer-IsSurface _ (step s.role)
  where
    step :
        (r : Option ℕ)
        → IsSurface (elim r [ none ↦ take_callbacks s | some w ↦ run w (take_callbacks s) ])
    step none = record { pending = h.pending; state = h.state }
    step (some w) = law w (take_callbacks s) (record { pending = h.pending; state = h.state })

destroyed_state :
    (b : ℕ) (s : SurfaceState)
    → s.listening ≡ s.buffer
    → ((state_buffer_destroyed b s).listening ≡ (state_buffer_destroyed b s).buffer)
      × ((state_buffer_destroyed b s).buffer ≢ some b)
destroyed_state b s e = elim (Bool-cases (same_buffer s.listening (some b))) [
  | inl h ↦ rw h (refl, λ q. absurd (ground (arith, q)))
  | inr h ↦ rw h (e, λ q. absurd (ground (arith, h, e, q)))
]

-- What `create_surface` gives.
abbrev pub Created : Option Surface → Type 0
Created none = Unit
Created (some s) = IsSurface s

-- A new surface listens to the end of the buffers that it holds and of no other, and every
-- operation keeps this, for a role's commit that keeps it; so that after the end of a buffer a
-- surface holds this buffer nowhere, and when it is freed no listener stays linked.
pub surface-IsSurface :
    (run : ℕ → Surface → Surface) (s : Surface) (b : Option ℕ) (gone : ℕ) (x y w h : ℤ)
    (cb : Option ℕ) (room made : Bool)
    → KeepsBuffers run
    → IsSurface s
    → IsSurface (attach b s)
      × IsSurface (damage x y w h s)
      × IsSurface (frame cb s)
      × IsSurface (commit run s)
      × IsSurface (buffer_destroyed gone s)
      × ((buffer_destroyed gone s).pending.buffer ≢ some gone)
      × ((buffer_destroyed gone s).state.buffer ≢ some gone)
      × (destroy_surface s ≡ (none, none))
      × Created (create_surface room made)
unfolding damage frame buffer_destroyed destroy_surface create_surface
surface-IsSurface run s b gone x y w h cb room made law k = (
  attach-IsSurface b s k,
  record { pending = k.pending; state = k.state },
  framed cb,
  commit-IsSurface run s law k,
  record {
    pending = (destroyed_state gone s.pending k.pending).0;
    state = (destroyed_state gone s.state k.state).0;
  },
  (destroyed_state gone s.pending k.pending).1,
  (destroyed_state gone s.state k.state).1,
  ap₂ (λ p q. (p, q)) (unlistened s.state k.state) (unlistened s.pending k.pending),
  created room made,
)
  where
    created : (room made : Bool) → Created (create_surface room made)
    created false made = tt
    created true false = tt
    created true true = record { pending = refl; state = refl }

    framed : (cb : Option ℕ) → IsSurface (frame cb s)
    framed none = k
    framed (some c) = record { pending = k.pending; state = k.state }
