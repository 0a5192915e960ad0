-- ===== src/Header/Tests.antt =====
-- Names on which the theorems about header names apply.
use harmony_http.Prelude.{refl, codes}
use harmony_http.Header.{to_lower, is_alpha, is_upper}
use harmony_http.Header.Case.{SameCase}

host-SameCase : SameCase (codes "HOst") (codes "host")
unfolding to_lower is_alpha is_upper
host-SameCase = (refl, (refl, (refl, (refl, tt))))
