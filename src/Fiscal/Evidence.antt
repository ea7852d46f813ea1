-- ===== src/Fiscal/Evidence.antt =====
-- fiscal-types.ts: what is known of a command that was sent to the fiscal printer.
pub mod Safety
use cullen.Prelude.{Bool, true, false, not, ◌&&◌, ◌||◌, if◌then◌else◌}

-- `FiscalDispatchState`
pub data DispatchState : Type 0 where
  not_started started result_received : DispatchState

-- `FiscalCommandEffect`
pub data CommandEffect : Type 0 where
  applied not_applied rejected effect_unknown : CommandEffect

-- `FiscalCommit`
pub data Commit : Type 0 where
  committed not_committed commit_unknown : Commit

-- `FiscalPrintDelivery`
pub data PrintDelivery : Type 0 where
  complete incomplete delivery_unknown : PrintDelivery

-- `FiscalOperationEvidence`
pub record Evidence : Type 0 where
  pub dispatch_state : DispatchState
  pub command_effect : CommandEffect
  pub fiscal_commit : Commit
  pub print_delivery : PrintDelivery

abbrev pub is_not_started : DispatchState → Bool
is_not_started not_started = true
is_not_started started = false
is_not_started result_received = false

abbrev pub is_applied : CommandEffect → Bool
is_applied applied = true
is_applied not_applied = false
is_applied rejected = false
is_applied effect_unknown = false

abbrev pub is_not_applied : CommandEffect → Bool
is_not_applied applied = false
is_not_applied not_applied = true
is_not_applied rejected = false
is_not_applied effect_unknown = false

abbrev is_rejected : CommandEffect → Bool
is_rejected applied = false
is_rejected not_applied = false
is_rejected rejected = true
is_rejected effect_unknown = false

abbrev is_effect_unknown : CommandEffect → Bool
is_effect_unknown applied = false
is_effect_unknown not_applied = false
is_effect_unknown rejected = false
is_effect_unknown effect_unknown = true

abbrev pub is_committed : Commit → Bool
is_committed committed = true
is_committed not_committed = false
is_committed commit_unknown = false

abbrev pub is_not_committed : Commit → Bool
is_not_committed committed = false
is_not_committed not_committed = true
is_not_committed commit_unknown = false

abbrev is_commit_unknown : Commit → Bool
is_commit_unknown committed = false
is_commit_unknown not_committed = false
is_commit_unknown commit_unknown = true

abbrev pub is_complete : PrintDelivery → Bool
is_complete complete = true
is_complete incomplete = false
is_complete delivery_unknown = false

abbrev is_incomplete : PrintDelivery → Bool
is_incomplete complete = false
is_incomplete incomplete = true
is_incomplete delivery_unknown = false

abbrev is_delivery_unknown : PrintDelivery → Bool
is_delivery_unknown complete = false
is_delivery_unknown incomplete = false
is_delivery_unknown delivery_unknown = true

-- `isFiscalOperationEvidenceCoherent`
unfoldable pub is_evidence_coherent : Evidence → Bool
is_evidence_coherent e =
    if is_not_started e.dispatch_state
      && (not (is_not_applied e.command_effect)
          || not (is_not_committed e.fiscal_commit)
          || not (is_incomplete e.print_delivery))
    then false
    else if is_complete e.print_delivery
        && (not (is_applied e.command_effect) || not (is_committed e.fiscal_commit))
    then false
    else if is_committed e.fiscal_commit && not (is_applied e.command_effect)
    then false
    else if is_not_applied e.command_effect && not (is_not_committed e.fiscal_commit)
    then false
    else not (is_rejected e.command_effect && is_committed e.fiscal_commit)

-- `isFiscalOperationRetrySafe`
unfoldable pub is_retry_safe : Evidence → Bool
unfolding is_evidence_coherent
is_retry_safe e =
    is_evidence_coherent e
    && not (is_effect_unknown e.command_effect)
    && not (is_commit_unknown e.fiscal_commit)
    && not (is_delivery_unknown e.print_delivery)
    && (is_not_started e.dispatch_state
        || (is_not_applied e.command_effect && is_not_committed e.fiscal_commit))

-- `isFiscalOperationTerminalFailureSafe`
unfoldable pub is_terminal_failure_safe : Evidence → Bool
unfolding is_evidence_coherent
is_terminal_failure_safe e =
    is_evidence_coherent e
    && is_not_applied e.command_effect
    && is_not_committed e.fiscal_commit
    && is_incomplete e.print_delivery

-- `isFiscalOperationCommitted`
unfoldable pub is_operation_committed : Evidence → Bool
unfolding is_evidence_coherent
is_operation_committed e =
    is_evidence_coherent e && is_applied e.command_effect && is_committed e.fiscal_commit
