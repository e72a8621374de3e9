-- ===== src/Es8311/Table.antt =====
-- The clock coefficients of main/audio-sinks/esp/es8311.c, and the search for a row.
use bell.Prelude.{ℕ, ◌+◌, ◌&&◌, List, [], ◌∷◌, Option, none, some, ◌==◌, if◌then◌else◌}

-- `struct _coeff_div`
pub record CoeffDiv : Type 0 where
  pub mclk : ℕ
  pub rate : ℕ
  pub prediv : ℕ
  pub premulti : ℕ
  pub adcdiv : ℕ
  pub dacdiv : ℕ
  pub fsmode : ℕ
  pub lrck_h : ℕ
  pub lrck_l : ℕ
  pub bclkdiv : ℕ
  pub adcosr : ℕ
  pub dacosr : ℕ

abbrev coeff : ℕ → ℕ → ℕ → ℕ → ℕ → ℕ → ℕ → ℕ → ℕ → ℕ → ℕ → ℕ → CoeffDiv
coeff mclk rate prediv premulti adcdiv dacdiv fsmode lrck_h lrck_l bclkdiv adcosr dacosr = record {
  mclk = mclk;
  rate = rate;
  prediv = prediv;
  premulti = premulti;
  adcdiv = adcdiv;
  dacdiv = dacdiv;
  fsmode = fsmode;
  lrck_h = lrck_h;
  lrck_l = lrck_l;
  bclkdiv = bclkdiv;
  adcosr = adcosr;
  dacosr = dacosr;
}

unfoldable pub coeff_div : List CoeffDiv
coeff_div =
    coeff 12288000 8000 0x06 0x01 0x01 0x01 0x00 0x00 0xff 0x04 0x10 0x10
    ∷ coeff 18432000 8000 0x03 0x02 0x03 0x03 0x00 0x05 0xff 0x18 0x10 0x10
    ∷ coeff 16384000 8000 0x08 0x01 0x01 0x01 0x00 0x00 0xff 0x04 0x10 0x10
    ∷ coeff 8192000 8000 0x04 0x01 0x01 0x01 0x00 0x00 0xff 0x04 0x10 0x10
    ∷ coeff 6144000 8000 0x03 0x01 0x01 0x01 0x00 0x00 0xff 0x04 0x10 0x10
    ∷ coeff 4096000 8000 0x02 0x01 0x01 0x01 0x00 0x00 0xff 0x04 0x10 0x10
    ∷ coeff 3072000 8000 0x01 0x01 0x01 0x01 0x00 0x00 0xff 0x04 0x10 0x10
    ∷ coeff 2048000 8000 0x01 0x01 0x01 0x01 0x00 0x00 0xff 0x04 0x10 0x10
    ∷ coeff 1536000 8000 0x03 0x04 0x01 0x01 0x00 0x00 0xff 0x04 0x10 0x10
    ∷ coeff 1024000 8000 0x01 0x02 0x01 0x01 0x00 0x00 0xff 0x04 0x10 0x10
    ∷ coeff 11289600 11025 0x04 0x01 0x01 0x01 0x00 0x00 0xff 0x04 0x10 0x10
    ∷ coeff 5644800 11025 0x02 0x01 0x01 0x01 0x00 0x00 0xff 0x04 0x10 0x10
    ∷ coeff 2822400 11025 0x01 0x01 0x01 0x01 0x00 0x00 0xff 0x04 0x10 0x10
    ∷ coeff 1411200 11025 0x01 0x02 0x01 0x01 0x00 0x00 0xff 0x04 0x10 0x10
    ∷ coeff 12288000 12000 0x04 0x01 0x01 0x01 0x00 0x00 0xff 0x04 0x10 0x10
    ∷ coeff 6144000 12000 0x02 0x01 0x01 0x01 0x00 0x00 0xff 0x04 0x10 0x10
    ∷ coeff 3072000 12000 0x01 0x01 0x01 0x01 0x00 0x00 0xff 0x04 0x10 0x10
    ∷ coeff 1536000 12000 0x01 0x02 0x01 0x01 0x00 0x00 0xff 0x04 0x10 0x10
    ∷ coeff 12288000 16000 0x03 0x01 0x01 0x01 0x00 0x00 0xff 0x04 0x10 0x10
    ∷ coeff 18432000 16000 0x03 0x02 0x03 0x03 0x00 0x02 0xff 0x0c 0x10 0x10
    ∷ coeff 16384000 16000 0x04 0x01 0x01 0x01 0x00 0x00 0xff 0x04 0x10 0x10
    ∷ coeff 8192000 16000 0x02 0x01 0x01 0x01 0x00 0x00 0xff 0x04 0x10 0x10
    ∷ coeff 6144000 16000 0x03 0x02 0x01 0x01 0x00 0x00 0xff 0x04 0x10 0x10
    ∷ coeff 4096000 16000 0x01 0x01 0x01 0x01 0x00 0x00 0xff 0x04 0x10 0x10
    ∷ coeff 3072000 16000 0x03 0x04 0x01 0x01 0x00 0x00 0xff 0x04 0x10 0x10
    ∷ coeff 2048000 16000 0x01 0x02 0x01 0x01 0x00 0x00 0xff 0x04 0x10 0x10
    ∷ coeff 1536000 16000 0x03 0x08 0x01 0x01 0x00 0x00 0xff 0x04 0x10 0x10
    ∷ coeff 1024000 16000 0x01 0x04 0x01 0x01 0x00 0x00 0xff 0x04 0x10 0x10
    ∷ coeff 11289600 22050 0x02 0x01 0x01 0x01 0x00 0x00 0xff 0x04 0x10 0x10
    ∷ coeff 5644800 22050 0x01 0x01 0x01 0x01 0x00 0x00 0xff 0x04 0x10 0x10
    ∷ coeff 2822400 22050 0x01 0x02 0x01 0x01 0x00 0x00 0xff 0x04 0x10 0x10
    ∷ coeff 1411200 22050 0x01 0x04 0x01 0x01 0x00 0x00 0xff 0x04 0x10 0x10
    ∷ coeff 12288000 24000 0x02 0x01 0x01 0x01 0x00 0x00 0xff 0x04 0x10 0x10
    ∷ coeff 18432000 24000 0x03 0x01 0x01 0x01 0x00 0x00 0xff 0x04 0x10 0x10
    ∷ coeff 6144000 24000 0x01 0x01 0x01 0x01 0x00 0x00 0xff 0x04 0x10 0x10
    ∷ coeff 3072000 24000 0x01 0x02 0x01 0x01 0x00 0x00 0xff 0x04 0x10 0x10
    ∷ coeff 1536000 24000 0x01 0x04 0x01 0x01 0x00 0x00 0xff 0x04 0x10 0x10
    ∷ coeff 12288000 32000 0x03 0x02 0x01 0x01 0x00 0x00 0xff 0x04 0x10 0x10
    ∷ coeff 18432000 32000 0x03 0x04 0x03 0x03 0x00 0x02 0xff 0x0c 0x10 0x10
    ∷ coeff 16384000 32000 0x02 0x01 0x01 0x01 0x00 0x00 0xff 0x04 0x10 0x10
    ∷ coeff 8192000 32000 0x01 0x01 0x01 0x01 0x00 0x00 0xff 0x04 0x10 0x10
    ∷ coeff 6144000 32000 0x03 0x04 0x01 0x01 0x00 0x00 0xff 0x04 0x10 0x10
    ∷ coeff 4096000 32000 0x01 0x02 0x01 0x01 0x00 0x00 0xff 0x04 0x10 0x10
    ∷ coeff 3072000 32000 0x03 0x08 0x01 0x01 0x00 0x00 0xff 0x04 0x10 0x10
    ∷ coeff 2048000 32000 0x01 0x04 0x01 0x01 0x00 0x00 0xff 0x04 0x10 0x10
    ∷ coeff 1536000 32000 0x03 0x08 0x01 0x01 0x01 0x00 0x7f 0x02 0x10 0x10
    ∷ coeff 1024000 32000 0x01 0x08 0x01 0x01 0x00 0x00 0xff 0x04 0x10 0x10
    ∷ coeff 11289600 44100 0x01 0x01 0x01 0x01 0x00 0x00 0xff 0x04 0x10 0x10
    ∷ coeff 5644800 44100 0x01 0x02 0x01 0x01 0x00 0x00 0xff 0x04 0x10 0x10
    ∷ coeff 2822400 44100 0x01 0x04 0x01 0x01 0x00 0x00 0xff 0x04 0x10 0x10
    ∷ coeff 1411200 44100 0x01 0x08 0x01 0x01 0x00 0x00 0xff 0x04 0x10 0x10
    ∷ coeff 12288000 48000 0x01 0x01 0x01 0x01 0x00 0x00 0xff 0x04 0x10 0x10
    ∷ coeff 18432000 48000 0x03 0x02 0x01 0x01 0x00 0x00 0xff 0x04 0x10 0x10
    ∷ coeff 6144000 48000 0x01 0x02 0x01 0x01 0x00 0x00 0xff 0x04 0x10 0x10
    ∷ coeff 3072000 48000 0x01 0x04 0x01 0x01 0x00 0x00 0xff 0x04 0x10 0x10
    ∷ coeff 1536000 48000 0x01 0x08 0x01 0x01 0x00 0x00 0xff 0x04 0x10 0x10
    ∷ coeff 12288000 64000 0x03 0x04 0x01 0x01 0x00 0x00 0xff 0x04 0x10 0x10
    ∷ coeff 18432000 64000 0x03 0x04 0x03 0x03 0x01 0x01 0x7f 0x06 0x10 0x10
    ∷ coeff 16384000 64000 0x01 0x01 0x01 0x01 0x00 0x00 0xff 0x04 0x10 0x10
    ∷ coeff 8192000 64000 0x01 0x02 0x01 0x01 0x00 0x00 0xff 0x04 0x10 0x10
    ∷ coeff 6144000 64000 0x01 0x04 0x03 0x03 0x01 0x01 0x7f 0x06 0x10 0x10
    ∷ coeff 4096000 64000 0x01 0x04 0x01 0x01 0x00 0x00 0xff 0x04 0x10 0x10
    ∷ coeff 3072000 64000 0x01 0x08 0x03 0x03 0x01 0x01 0x7f 0x06 0x10 0x10
    ∷ coeff 2048000 64000 0x01 0x08 0x01 0x01 0x00 0x00 0xff 0x04 0x10 0x10
    ∷ coeff 1536000 64000 0x01 0x08 0x01 0x01 0x01 0x00 0xbf 0x03 0x18 0x18
    ∷ coeff 1024000 64000 0x01 0x08 0x01 0x01 0x01 0x00 0x7f 0x02 0x10 0x10
    ∷ coeff 11289600 88200 0x01 0x02 0x01 0x01 0x00 0x00 0xff 0x04 0x10 0x10
    ∷ coeff 5644800 88200 0x01 0x04 0x01 0x01 0x00 0x00 0xff 0x04 0x10 0x10
    ∷ coeff 2822400 88200 0x01 0x08 0x01 0x01 0x00 0x00 0xff 0x04 0x10 0x10
    ∷ coeff 1411200 88200 0x01 0x08 0x01 0x01 0x01 0x00 0x7f 0x02 0x10 0x10
    ∷ coeff 12288000 96000 0x01 0x02 0x01 0x01 0x00 0x00 0xff 0x04 0x10 0x10
    ∷ coeff 18432000 96000 0x03 0x04 0x01 0x01 0x00 0x00 0xff 0x04 0x10 0x10
    ∷ coeff 6144000 96000 0x01 0x04 0x01 0x01 0x00 0x00 0xff 0x04 0x10 0x10
    ∷ coeff 3072000 96000 0x01 0x08 0x01 0x01 0x00 0x00 0xff 0x04 0x10 0x10
    ∷ coeff 1536000 96000 0x01 0x08 0x01 0x01 0x01 0x00 0x7f 0x02 0x10 0x10
    ∷ []

-- The loop of `get_coeff` from index `i` on; `none` stands for the result -1.
unfoldable pub get_coeff_from : List CoeffDiv → ℕ → ℕ → ℕ → Option ℕ
get_coeff_from [] i mclk rate = none
get_coeff_from (c ∷ cs) i mclk rate =
    if c.rate == rate && c.mclk == mclk then some i else get_coeff_from cs (i + 1) mclk rate

unfoldable pub get_coeff : ℕ → ℕ → Option ℕ
unfolding get_coeff_from coeff_div
get_coeff = get_coeff_from coeff_div 0
