-- ===== src/Cash/Shift/Guards.antt =====
-- What a shift refuses.
use cullen.Prelude.{◌≡◌, ◌≢◌, ◌⊎◌, inl, inr, Bool, none, arith}
use cullen.Prelude.Text.{Text, eqb→eq, eqb_refl}
use cullen.Shared.Errors.{shift_invalid_state, shift_ownership_mismatch}
use cullen.Shared.Result.{err}
use cullen.Cash.Shift.{
  Shift, closed_shift, existing_movement, RegisterProps, CloseProps, register_movement,
  register_new, close,
}

module _ (locale_le : Text → Text → Bool) where
  -- A closed shift takes no new movement from its own terminal and is not closed again: both calls
  -- throw, and leave the shift as it was.
  pub closed_shift_refuses :
      (s : Shift) (r : RegisterProps) (c : CloseProps)
      → s.status ≡ closed_shift
      → s.terminal_id ≡ r.terminal_id
      → s.origin_node_id ≡ r.origin_node_id
      → existing_movement r.movement.id s ≡ none
      → (register_movement locale_le r s ≡ (err shift_invalid_state, s))
        × (close locale_le c s ≡ (err shift_invalid_state, s))
  unfolding register_movement register_new close
  closed_shift_refuses s r c h t n e =
      ground (arith, eqb_refl r.terminal_id, eqb_refl r.origin_node_id)

  -- A call from another terminal or another node registers nothing, whatever the state of the shift.
  pub foreign_call_refused :
      (s : Shift) (r : RegisterProps)
      → (s.terminal_id ≢ r.terminal_id) ⊎ (s.origin_node_id ≢ r.origin_node_id)
      → register_movement locale_le r s ≡ (err shift_ownership_mismatch, s)
  unfolding register_movement
  foreign_call_refused s r (inl h) = ground (arith, eqb→eq s.terminal_id r.terminal_id)
  foreign_call_refused s r (inr h) = ground (arith, eqb→eq s.origin_node_id r.origin_node_id)
