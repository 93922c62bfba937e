-- ===== src/Catalog/Names.antt =====
-- The identifiers of internal/domain (catalog.go, job.go): the regular expressions that they match.
use go_bemu.Base.{ℕ, Bool, true, false, ◌&&◌, ◌||◌, not, [], ◌∷◌, nat_eq, leb, length, is_empty}
use go_bemu.Text.{Bytes}

abbrev pub is_lower : ℕ → Bool
is_lower c = leb b'a' c && leb c b'z'

abbrev pub is_upper : ℕ → Bool
is_upper c = leb b'A' c && leb c b'Z'

abbrev pub is_digit : ℕ → Bool
is_digit c = leb b'0' c && leb c b'9'

abbrev pub every : (ℕ → Bool) → Bytes → Bool
every p [] = true
every p (c ∷ s) = p c && every p s

abbrev pub project_byte : ℕ → Bool
project_byte c = is_lower c || is_digit c || nat_eq c b'-'

-- ^[a-z][a-z0-9-]{2,62}$
unfoldable pub is_project_id : Bytes → Bool
is_project_id [] = false
is_project_id (c ∷ s) =
    is_lower c && (leb 2 (length s) && leb (length s) 62) && every project_byte s

abbrev resource_first : ℕ → Bool
resource_first c = is_upper c || is_lower c || nat_eq c b'_'

-- ^[A-Za-z_][A-Za-z0-9_]*$
unfoldable pub is_resource_id : Bytes → Bool
is_resource_id [] = false
is_resource_id (c ∷ s) = resource_first c && every (λ d. resource_first d || is_digit d) s

-- ^[A-Za-z0-9-]+$
abbrev pub location_byte : ℕ → Bool
location_byte c = is_upper c || is_lower c || is_digit c || nat_eq c b'-'

unfoldable pub is_job_location : Bytes → Bool
is_job_location s = not (is_empty s) && every location_byte s

-- ^[A-Za-z0-9_-]+$
unfoldable pub is_job_id : Bytes → Bool
is_job_id s = not (is_empty s) && every (λ c. location_byte c || nat_eq c b'_') s

abbrev label_byte : ℕ → Bool
label_byte c = is_lower c || is_digit c || nat_eq c b'_' || nat_eq c b'-'

-- ^[a-z][a-z0-9_-]*$
unfoldable pub is_label_key : Bytes → Bool
is_label_key [] = false
is_label_key (c ∷ s) = is_lower c && every label_byte s

-- ^[a-z0-9_-]*$
unfoldable pub is_label_value : Bytes → Bool
is_label_value s = every label_byte s
