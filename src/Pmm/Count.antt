-- ===== src/Pmm/Count.antt =====
-- The clear bits of the bitmap below a bound, which `g_stats.free_pages` is meant to count.
use jcos.Prelude.{ℕ, zero, suc, ◌+◌, ◌≤◌, ◌<◌, ◌≡◌, refl, true, false, arith, if◌then◌else◌}
use jcos.Pmm.{bitmap_used, bitmap_set, bitmap_clear}
use jcos.Pmm.Bits.{used-set, used-clear}

unfoldable pub clear_below : (ℕ → ℕ) → ℕ → ℕ
clear_below m zero = 0
clear_below m (suc n) = (if bitmap_used m n then 0 else 1) + clear_below m n

pub clear_below-le : (m : ℕ → ℕ) (n : ℕ) → clear_below m n ≤ n
unfolding clear_below
clear_below-le m zero = omega arith
clear_below-le m (suc n) = ground (arith, clear_below-le m n)

pub clear_below_ext :
    (m k : ℕ → ℕ) (n : ℕ)
    → ((j : ℕ) → j < n → bitmap_used m j ≡ bitmap_used k j)
    → clear_below m n ≡ clear_below k n
unfolding clear_below
clear_below_ext m k zero h = refl
clear_below_ext m k (suc n) h =
    ground (arith, h n, clear_below_ext m k n (λ j l. h j (omega arith)))

set_above : (m : ℕ → ℕ) (i n : ℕ) → n ≤ i → clear_below (bitmap_set m i) n ≡ clear_below m n
set_above m i n h = clear_below_ext (bitmap_set m i) m n (λ j l. ground (arith, used-set m i j))

clear_above : (m : ℕ → ℕ) (i n : ℕ) → n ≤ i → clear_below (bitmap_clear m i) n ≡ clear_below m n
clear_above m i n h =
    clear_below_ext (bitmap_clear m i) m n (λ j l. ground (arith, used-clear m i j))

-- Setting a clear bit takes one off the count.
pub clear_below-set :
    (m : ℕ → ℕ) (i n : ℕ)
    → i < n
    → bitmap_used m i ≡ false
    → clear_below (bitmap_set m i) n + 1 ≡ clear_below m n
unfolding clear_below
clear_below-set m i zero h e = absurd (omega arith)
clear_below-set m i (suc n) h e =
    ground (arith, used-set m i n, set_above m i n, clear_below-set m i n)

-- Clearing a set bit adds one.
pub clear_below-clear :
    (m : ℕ → ℕ) (i n : ℕ)
    → i < n
    → bitmap_used m i ≡ true
    → clear_below (bitmap_clear m i) n ≡ clear_below m n + 1
unfolding clear_below
clear_below-clear m i zero h e = absurd (omega arith)
clear_below-clear m i (suc n) h e =
    ground (arith, used-clear m i n, clear_above m i n, clear_below-clear m i n)

-- With no clear bit below the bound the count is zero.
pub clear_below-full :
    (m : ℕ → ℕ) (n : ℕ) → ((j : ℕ) → j < n → bitmap_used m j ≡ true) → clear_below m n ≡ 0
unfolding clear_below
clear_below-full m zero h = refl
clear_below-full m (suc n) h = ground (arith, h n, clear_below-full m n (λ j l. h j (omega arith)))
