-- ===== src/Shared/Result/Again.antt =====
-- Cleaning a text that was cleaned.
use cullen.Prelude.{◌≡◌, subst, arith}
use cullen.Prelude.Text.{Text, trim}
use cullen.Prelude.Text.Trim.{trim_idem}
use cullen.Shared.Errors.{DomainError}
use cullen.Shared.Result.{ok, require_text}

-- What was cleaned once stays as it is.
pub require_text-again :
    (t y : Text) (e : DomainError) → require_text t e ≡ ok y → require_text y e ≡ ok y
unfolding require_text
require_text-again t y e h =
    let same : trim t ≡ y = ground (arith, h) in
    subst (λ z. require_text z e ≡ ok z) same (ground (arith, h, trim_idem t))
