-- ===== src/Views/Tests.antt =====
-- The public view of a table with other secrets.
use catalyst_router.Prelude.{◌≡◌, none, some, true}
use catalyst_router.Samples.{linked}
use catalyst_router.Views.{public_table, other_table, public_table-secret}

public_table-secret_example :
    public_table (other_table (λ p. none) (λ p. 0) (λ r. some true) linked) ≡ public_table linked
public_table-secret_example = public_table-secret (λ p. none) (λ p. 0) (λ r. some true) linked
