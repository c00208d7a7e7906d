-- ===== src/Ufe/Relocate.antt =====
-- Where one spill position goes when a range of a container is appended.
use bm_daq.Common.{ℕ, ◌+◌, ◌-◌, ◌≤◌, ◌<◌, ◌≡◌, ◌⊎◌, [], ◌∷◌, arith}
use bm_daq.Ufe.{relocate}

pub relocate_inside :
    (pos n base q r : ℕ)
    → pos ≤ q
    → q < pos + n
    → q - pos + base ≡ r
    → relocate pos n base (q ∷ []) ≡ r ∷ []
relocate_inside pos n base q r low high e = ground arith

pub relocate_outside :
    (pos n base q : ℕ) → (q < pos) ⊎ (pos + n ≤ q) → relocate pos n base (q ∷ []) ≡ []
relocate_outside pos n base q out = ground arith
