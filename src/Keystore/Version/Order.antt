-- ===== src/Keystore/Version/Order.antt =====
-- What `LT` and `GT` decide.
use btcwallet.Prelude.{◌<◌, ◌≡◌, ◌⊎◌, true, arith}
use btcwallet.Keystore.Version.{Version, lt, gt}

-- The order of versions: by the first part that differs.
abbrev pub IsEarlier : Version → Version → Type 0
IsEarlier v w =
    (v.major < w.major)
    ⊎ ((v.major ≡ w.major)
        × ((v.minor < w.minor)
            ⊎ ((v.minor ≡ w.minor)
                × ((v.bugfix < w.bugfix)
                    ⊎ ((v.bugfix ≡ w.bugfix) × (v.autoincrement < w.autoincrement))))))

-- `LT` holds of every earlier version.
pub lt-IsEarlier : (v w : Version) → IsEarlier v w → lt v w ≡ true
unfolding lt
lt-IsEarlier v w h = ground arith

-- Where a version has the smaller major and the larger minor number, `LT` and `GT` both hold of it
-- and the other, in both orders: they compare a part also where an earlier part decides.
pub lt_both :
    (v w : Version)
    → v.major < w.major
    → w.minor < v.minor
    → (lt v w ≡ true) × (lt w v ≡ true) × (gt v w ≡ true) × (gt w v ≡ true)
unfolding lt gt
lt_both v w h k = ground arith
