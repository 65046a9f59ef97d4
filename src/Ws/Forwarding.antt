-- ===== src/Ws/Forwarding.antt =====
-- What a socket is sent by the forward task (apps/api/src/ws.rs).
use epistl.Prelude.{
  ℕ, zero, suc, ◌≡◌, refl, ap, inl, inr, Bool, List, [], ◌∷◌, map, take, Bool-cases, if◌then◌else◌,
}
use epistl.Registry.{Frame}
use epistl.Ws.{frame_to_message, is_close, forward_task}

-- up to and with the first that passes
abbrev pub up_to : {A : Type 0} → (A → Bool) → List A → List A
up_to p [] = []
up_to p (x ∷ xs) = if p x then x ∷ [] else x ∷ up_to p xs

-- The socket gets the frames in the order in which they were sent on the channel, as many as the
-- sink takes, up to the first close frame and nothing after it.
pub forward_task-up_to :
    {T : Type 0} (sink : ℕ) (fs : List (Frame T))
    → forward_task sink fs ≡ take sink (up_to is_close (map frame_to_message fs))
unfolding forward_task
forward_task-up_to zero [] = refl
forward_task-up_to zero (f ∷ fs) = refl
forward_task-up_to (suc sink) [] = refl
forward_task-up_to (suc sink) (f ∷ fs) = elim (Bool-cases (is_close (frame_to_message f))) [
  | inl e ↦ rw e (take_nil sink)
  | inr e ↦ rw e (ap (λ t. frame_to_message f ∷ t) (forward_task-up_to sink fs))
]
  where
    take_nil : {A : Type 0} {x : A} (n : ℕ) → x ∷ [] ≡ x ∷ take n []
    take_nil zero = refl
    take_nil (suc n) = refl
