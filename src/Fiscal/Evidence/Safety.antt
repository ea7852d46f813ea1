-- ===== src/Fiscal/Evidence/Safety.antt =====
-- What the four predicates on evidence say of what the printer may have done.
use cullen.Prelude.{◌≡◌, true, false, arith}
use cullen.Fiscal.Evidence.{
  Evidence, not_applied, not_committed, incomplete, is_retry_safe, is_terminal_failure_safe,
  is_operation_committed,
}

-- Evidence that allows a retry says, and with certainty, that the command took no effect, that nothing
-- was committed, and that nothing was printed: it is never evidence of a commit.
pub retry_safe_is_uncommitted :
    (e : Evidence)
    → is_retry_safe e ≡ true
    → (e.command_effect ≡ not_applied)
      × (e.fiscal_commit ≡ not_committed)
      × (e.print_delivery ≡ incomplete)
      × (is_operation_committed e ≡ false)
unfolding is_retry_safe is_operation_committed
retry_safe_is_uncommitted e h = ground arith

-- Evidence that allows a terminal failure allows a retry too, and the other way round: both tests
-- accept exactly the same evidence.
pub retry_safe_iff_terminal_failure_safe :
    (e : Evidence) → is_retry_safe e ≡ is_terminal_failure_safe e
unfolding is_retry_safe is_terminal_failure_safe
retry_safe_iff_terminal_failure_safe e = ground arith
