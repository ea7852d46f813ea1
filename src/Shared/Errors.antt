-- ===== src/Shared/Errors.antt =====
-- packages/shared/src/errors/app-error.ts: `DomainError`, with a constructor for each `code` that the
-- modelled files throw. Messages and details are not modelled.
pub data DomainError : Type 0 where
  cash_movement_actor_required cash_movement_duplicate cash_movement_id_required
        cash_movement_invalid_amount cash_movement_invalid_timestamp cash_movement_invalid_type
        cash_movement_reason_required cash_payment_method_required cash_register_id_required
        cash_register_inactive cash_register_name_required cash_register_node_required
        cash_register_ownership_mismatch cash_register_terminal_required cash_sale_payment_conflict
        cash_sale_payment_reference_required cash_withdrawal_insufficient_funds :
      DomainError
  cost_snapshot_instant_invalid cost_snapshot_negative cost_snapshot_source_required
        cost_snapshot_version_invalid :
      DomainError
  currency_invalid_code currency_invalid_exponent currency_name_required currency_rate_expired
        currency_rate_mismatch currency_rate_missing :
      DomainError
  exchange_rate_invalid_currency exchange_rate_invalid_pair exchange_rate_invalid_scale
        exchange_rate_invalid_validity exchange_rate_invalid_value exchange_rate_source_required :
      DomainError
  fiscal_actor_required fiscal_business_date_invalid fiscal_commit_evidence_required
        fiscal_currency_invalid fiscal_day_id_required fiscal_day_not_open
        fiscal_document_content_invalid fiscal_document_failed fiscal_document_id_required
        fiscal_document_invalid_state fiscal_document_issued_immutable fiscal_error_code_required
        fiscal_event_id_required fiscal_failure_evidence_invalid fiscal_fingerprint_required
        fiscal_idempotency_key_required fiscal_line_description_required fiscal_line_id_required
        fiscal_line_invalid fiscal_node_required fiscal_number_required fiscal_payment_invalid
        fiscal_payment_method_required fiscal_recipient_identification_required
        fiscal_recipient_type_required fiscal_reference_required fiscal_report_duplicate
        fiscal_report_failed fiscal_report_id_required fiscal_report_invalid_state
        fiscal_report_issued_immutable fiscal_report_not_found fiscal_report_number_required
        fiscal_report_reconciliation_required fiscal_retry_reconciliation_required
        fiscal_terminal_failure_evidence_required fiscal_terminal_required fiscal_timestamp_invalid
        fiscal_totals_inconsistent :
      DomainError
  money_currency_mismatch money_division_by_zero money_invalid_amount money_invalid_currency
        money_invalid_factor money_overflow :
      DomainError
  payment_method_currency_mismatch payment_method_inactive payment_method_invalid_code
        payment_method_invalid_currency payment_method_invalid_kind payment_method_name_required :
      DomainError
  percentage_invalid_basis_points : DomainError
  purchase_receipt_actor_required purchase_receipt_batch_expiry_invalid
        purchase_receipt_created_at_invalid purchase_receipt_effective_date_invalid
        purchase_receipt_event_id_required purchase_receipt_fiscal_address_required
        purchase_receipt_id_required purchase_receipt_invalid_state purchase_receipt_line_duplicated
        purchase_receipt_line_id_required purchase_receipt_line_invalid
        purchase_receipt_lines_required purchase_receipt_origin_node_required
        purchase_receipt_product_required purchase_receipt_reason_required
        purchase_receipt_reversal_reason_required purchase_receipt_source_date_invalid
        purchase_receipt_source_number_required purchase_receipt_stock_item_required
        purchase_receipt_supplier_name_required purchase_receipt_supplier_required
        purchase_receipt_terminal_required purchase_receipt_timestamp_invalid
        purchase_receipt_unit_required :
      DomainError
  quantity_invalid_scale quantity_invalid_text quantity_invalid_value quantity_scale_exceeded
        quantity_scale_mismatch :
      DomainError
  sale_currency_mismatch sale_discount_exceeds_limit sale_discount_invalid_amount
        sale_discount_invalid_percentage sale_discount_invalid_policy sale_discount_reason_required
        sale_empty sale_invalid_igtf sale_invalid_state sale_item_already_exists
        sale_item_currency_mismatch sale_item_discount_already_applied sale_item_invalid_quantity
        sale_item_not_found sale_item_quantity_scale_mismatch sale_locked_after_payment
        sale_payment_batch_invalid sale_payment_insufficient sale_payment_invalid_amount
        sale_payment_invalid_converted_amount sale_payment_method_currency_mismatch
        sale_payment_method_inactive sale_payment_total_mismatch sale_payments_already_registered
        sale_recipient_country_invalid sale_recipient_identification_invalid
        sale_recipient_identification_required sale_recipient_type_invalid
        sale_return_actor_required sale_return_credit_note_required sale_return_document_required
        sale_return_event_id_required sale_return_id_required sale_return_line_duplicated
        sale_return_lines_required sale_return_node_required sale_return_payment_method_required
        sale_return_quantity_invalid sale_return_reason_required sale_return_refund_invalid
        sale_return_sale_event_required sale_return_sale_item_required sale_return_sale_required
        sale_return_shift_required sale_return_terminal_required sale_return_timestamp_invalid
        sale_shift_required sale_void_reason_required :
      DomainError
  shift_actor_required shift_closing_balance_duplicate shift_closing_balance_invalid
        shift_closing_balance_negative shift_id_required shift_invalid_state shift_invalid_timestamp
        shift_opening_balance_duplicate shift_ownership_mismatch shift_timestamp_before_open :
      DomainError
  stock_batch_duplicate stock_batch_expiry_invalid stock_batch_id_required stock_batch_lot_duplicate
        stock_batch_lot_required stock_batch_not_accepted stock_batch_not_found
        stock_batch_not_tracked stock_batch_required stock_cost_currency_mismatch
        stock_cost_currency_undetermined stock_count_actor_required stock_count_difference_mismatch
        stock_count_empty stock_count_event_id_required stock_count_id_required
        stock_count_line_batch_required stock_count_line_id_required
        stock_count_line_product_required stock_count_line_quantity_invalid
        stock_count_line_stock_item_required stock_count_not_counted stock_count_not_open
        stock_count_origin_node_required stock_count_reason_required
        stock_count_rejection_reason_required stock_count_terminal_required
        stock_count_timestamp_invalid stock_insufficient stock_item_id_required
        stock_movement_actor_required stock_movement_duplicate stock_movement_event_duplicate
        stock_movement_event_id_required stock_movement_id_required stock_movement_quantity_invalid
        stock_movement_reason_required stock_movement_reference_required
        stock_movement_timestamp_invalid stock_product_id_required stock_quantity_scale_invalid
        stock_quantity_scale_mismatch stock_sale_issue_conflict stock_unit_code_invalid :
      DomainError
  tax_id tax_rate_invalid_basis_points : DomainError
