-- ===== src/Errors/Laws.antt =====
-- The statuses of the domain exceptions.
use whatsapp_api.Base.{◌≤◌, String, Option, none, arith}
use whatsapp_api.Errors.{Kind, class_status, failure, prodaxis, response_status}

-- Every domain exception that overrides no status answers with one between 400 and 502.
failure_status_bounds :
    (k : Kind) (message code : Option String)
    → let status = response_status (prodaxis (failure k message code none)) in
      (400 ≤ status) × (status ≤ 502)
unfolding failure response_status class_status
failure_status_bounds Kind.prodaxis_error message code = omega arith
failure_status_bounds _ message code = omega arith
