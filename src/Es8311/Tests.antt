-- ===== src/Es8311/Tests.antt =====
-- The driver on a simulated codec whose registers all held 0xff.
use bell.Prelude.{ℕ, get_elem?, ◌*◌, ◌+◌, ◌≡◌, refl, some}
use bell.I2c.Simulator.{simulated, simulated_chip, all_ones}
use bell.Es8311.{pcm_hw_params}
use bell.Es8311.Clock.{Programmed, RowAt, pcm_hw_params_found, get_coeff_complete}
use bell.Es8311.Setup.{start_codec}
use bell.Es8311.Startup.{IsStarted, start_codec-IsStarted}
use bell.Es8311.Table.{CoeffDiv, coeff_div, get_coeff}

get_coeff_found : get_coeff 11289600 44100 ≡ some 47
unfolding get_coeff
get_coeff_found = refl

-- Row 47, for 44100 Hz.
RowAt-44100 : RowAt coeff_div 47 11289600 44100
unfolding coeff_div
RowAt-44100 = (_, refl, refl, refl)

pcm_hw_params_found_example :
    (k : ℕ) × (c : CoeffDiv) × (get_elem? coeff_div k ≡ some c)
    × (c.mclk ≡ 11289600)
    × (c.rate ≡ 44100)
    × Programmed c
        (simulated_chip.reg all_ones)
        (simulated_chip.reg (pcm_hw_params simulated 11289600 44100 all_ones).1)
pcm_hw_params_found_example =
    pcm_hw_params_found simulated simulated_chip 11289600 44100 47 all_ones RowAt-44100

-- The row that gives 12000 Hz.
odd_row :
    (c : CoeffDiv) × (get_coeff 3072000 8000 ≡ some 6)
    × (get_elem? coeff_div 6 ≡ some c)
    × (c.mclk * c.premulti ≡ 12000 * c.prediv * (c.lrck_h * 256 + c.lrck_l + 1))
unfolding get_coeff coeff_div
odd_row = (_, refl, refl, refl)

lacks_1 : (j : ℕ) → ¬ RowAt coeff_div j 1 1
unfolding get_coeff
lacks_1 j row = get_coeff_complete 1 1 j row refl

start_codec-IsStarted_example :
    IsStarted (simulated_chip.reg all_ones) (simulated_chip.reg (start_codec simulated all_ones).1)
start_codec-IsStarted_example = start_codec-IsStarted simulated simulated_chip all_ones
