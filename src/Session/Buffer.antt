-- ===== src/Session/Buffer.antt =====
-- The buffer of frames that wait for a server data socket, in crates/relay/src/session.rs.
use node_access.Prelude.{
  ◌-◌, ◌≡◌, ◌≤◌, ◌<◌, refl, List, [], ◌∷◌, ◌++◌, length, drop, arith, ltb, Bool-cases, inl, inr,
  length-append, length-drop, suc,
}
use node_access.Session.State.{RelayFrame, pending_frame_limit}
use node_access.Session.Ops.{pop_excess}

-- A bounded list is left as it is.
pop_excess_fits : (fs : List RelayFrame) → length fs ≤ pending_frame_limit → pop_excess fs ≡ fs
unfolding pop_excess
pop_excess_fits [] h = refl
pop_excess_fits (f ∷ fs) h = ground arith

-- The loop takes the oldest frames off until the limit is met.
pub pop_excess_lem :
    (fs : List RelayFrame) → pop_excess fs ≡ drop (length fs - pending_frame_limit) fs
unfolding pop_excess
pop_excess_lem [] = refl
pop_excess_lem (f ∷ fs) = elim (Bool-cases (ltb pending_frame_limit (length (f ∷ fs)))) [
  | inl over ↦
      let e : length (f ∷ fs) - pending_frame_limit ≡ suc (length fs - pending_frame_limit) =
        ground arith in
      rw (over, e) (pop_excess_lem fs)
  | inr fits ↦ let e : length (f ∷ fs) - pending_frame_limit ≡ 0 = ground arith in rw (fits, e)
]

pub length-pop_excess-le : (fs : List RelayFrame) → length (pop_excess fs) ≤ pending_frame_limit
length-pop_excess-le fs =
    rw (pop_excess_lem fs, length-drop (length fs - pending_frame_limit) fs) (omega arith)

pub length-pop_excess_pos :
    (fs : List RelayFrame) (f : RelayFrame) → 0 < length (pop_excess (fs ++ f ∷ []))
length-pop_excess_pos fs f =
    rw
      (
        pop_excess_lem (fs ++ f ∷ []),
        length-drop (length (fs ++ f ∷ []) - pending_frame_limit) (fs ++ f ∷ []),
      )
      (omega (arith, length-append fs (f ∷ [])))
