-- ===== src/Ws2812Led/Colour.antt =====
-- The colours of modules/WS2812Led/src/WS2812Led.c. The casts to uint8_t are written out.
pub mod Gamma
pub mod Hue
pub mod Heat
use zephyr_common.Common.{
  ℕ, ◌+◌, ◌-◌, ◌*◌, ◌/◌, ◌%◌, Bool, true, false, ◌&&◌, List, [], ◌∷◌, ltb, leb, ◌==◌, if◌then◌else◌,
  u8, get_or, not,
}

-- `CHSV`
pub record Chsv : Type 0 where
  pub h : ℕ
  pub s : ℕ
  pub v : ℕ

-- `CRGB`, the kernel's led_rgb.
pub record Crgb : Type 0 where
  pub r : ℕ
  pub g : ℕ
  pub b : ℕ

-- `SCALE8`
unfoldable pub scale8 : ℕ → ℕ → ℕ
scale8 x scale = u8 (x * scale / 256)

-- `SCALE8_NZ`: the sum is an int, which the caller's uint8_t cuts.
unfoldable pub scale8_nz : ℕ → ℕ → ℕ
scale8_nz x scale = u8 (x * scale / 256) + (if not (x == 0) && not (scale == 0) then 1 else 0)

-- `SUB_SAFE`
unfoldable pub sub_safe : ℕ → ℕ → ℕ
sub_safe a b = if ltb a b then 0 else a - b

-- `ADD8_SAFE`
unfoldable pub add8_safe : ℕ → ℕ → ℕ
add8_safe a b = if ltb 255 (a + b) then 255 else a + b

-- `gammaArray`
abbrev pub gamma_array : List ℕ
gamma_array =
    0 ∷ 0 ∷ 0 ∷ 0 ∷ 0 ∷ 0 ∷ 0 ∷ 0 ∷ 0 ∷ 0 ∷ 0 ∷ 0 ∷ 0 ∷ 0 ∷ 0 ∷ 0 ∷ 0 ∷ 0 ∷ 0 ∷ 0 ∷ 0 ∷ 0 ∷ 0 ∷ 0
    ∷ 0 ∷ 0 ∷ 0 ∷ 0 ∷ 1 ∷ 1 ∷ 1 ∷ 1 ∷ 1 ∷ 1 ∷ 1 ∷ 1 ∷ 1 ∷ 1 ∷ 1 ∷ 1 ∷ 1 ∷ 2 ∷ 2 ∷ 2 ∷ 2 ∷ 2 ∷ 2 ∷ 2
    ∷ 2 ∷ 3 ∷ 3 ∷ 3 ∷ 3 ∷ 3 ∷ 3 ∷ 3 ∷ 4 ∷ 4 ∷ 4 ∷ 4 ∷ 4 ∷ 5 ∷ 5 ∷ 5 ∷ 5 ∷ 6 ∷ 6 ∷ 6 ∷ 6 ∷ 7 ∷ 7 ∷ 7
    ∷ 7 ∷ 8 ∷ 8 ∷ 8 ∷ 9 ∷ 9 ∷ 9 ∷ 10 ∷ 10 ∷ 10 ∷ 11 ∷ 11 ∷ 11 ∷ 12 ∷ 12 ∷ 13 ∷ 13 ∷ 13 ∷ 14 ∷ 14
    ∷ 15 ∷ 15 ∷ 16 ∷ 16 ∷ 17 ∷ 17 ∷ 18 ∷ 18 ∷ 19 ∷ 19 ∷ 20 ∷ 20 ∷ 21 ∷ 21 ∷ 22 ∷ 22 ∷ 23 ∷ 24 ∷ 24
    ∷ 25 ∷ 25 ∷ 26 ∷ 27 ∷ 27 ∷ 28 ∷ 29 ∷ 29 ∷ 30 ∷ 31 ∷ 32 ∷ 32 ∷ 33 ∷ 34 ∷ 35 ∷ 35 ∷ 36 ∷ 37 ∷ 38
    ∷ 39 ∷ 39 ∷ 40 ∷ 41 ∷ 42 ∷ 43 ∷ 44 ∷ 45 ∷ 46 ∷ 47 ∷ 48 ∷ 49 ∷ 50 ∷ 50 ∷ 51 ∷ 52 ∷ 54 ∷ 55 ∷ 56
    ∷ 57 ∷ 58 ∷ 59 ∷ 60 ∷ 61 ∷ 62 ∷ 63 ∷ 64 ∷ 66 ∷ 67 ∷ 68 ∷ 69 ∷ 70 ∷ 72 ∷ 73 ∷ 74 ∷ 75 ∷ 77 ∷ 78
    ∷ 79 ∷ 81 ∷ 82 ∷ 83 ∷ 85 ∷ 86 ∷ 87 ∷ 89 ∷ 90 ∷ 92 ∷ 93 ∷ 95 ∷ 96 ∷ 98 ∷ 99 ∷ 101 ∷ 102 ∷ 104
    ∷ 105 ∷ 107 ∷ 109 ∷ 110 ∷ 112 ∷ 114 ∷ 115 ∷ 117 ∷ 119 ∷ 120 ∷ 122 ∷ 124 ∷ 126 ∷ 127 ∷ 129 ∷ 131
    ∷ 133 ∷ 135 ∷ 137 ∷ 138 ∷ 140 ∷ 142 ∷ 144 ∷ 146 ∷ 148 ∷ 150 ∷ 152 ∷ 154 ∷ 156 ∷ 158 ∷ 160 ∷ 162
    ∷ 164 ∷ 167 ∷ 169 ∷ 171 ∷ 173 ∷ 175 ∷ 177 ∷ 180 ∷ 182 ∷ 184 ∷ 186 ∷ 189 ∷ 191 ∷ 193 ∷ 196 ∷ 198
    ∷ 200 ∷ 203 ∷ 205 ∷ 208 ∷ 210 ∷ 213 ∷ 215 ∷ 218 ∷ 220 ∷ 223 ∷ 225 ∷ 228 ∷ 231 ∷ 233 ∷ 236 ∷ 239
    ∷ 241 ∷ 244 ∷ 247 ∷ 249 ∷ 252 ∷ 255 ∷ []

-- The table has an entry for every uint8_t.
unfoldable pub gamma8 : ℕ → ℕ
gamma8 idx = get_or gamma_array (u8 idx) 0

unfoldable pub scale8_rgb : Crgb → ℕ → Crgb
unfolding scale8
scale8_rgb rgb scale = record {
  r = scale8 rgb.r scale;
  g = scale8 rgb.g scale;
  b = scale8 rgb.b scale;
}

unfoldable pub get_heatcolor : ℕ → Crgb
unfolding scale8_nz
get_heatcolor temperature =
    let t192 = u8 (scale8_nz temperature 191) in
    let heatramp = u8 (t192 % 64 * 4) in
    if leb 0x80 t192
    then record { r = 255; g = 255; b = heatramp }
    else if leb 0x40 (t192 % 0x80)
    then record { r = 255; g = heatramp; b = 0 }
    else record { r = heatramp; g = 0; b = 0 }

-- The `switch` of `hsv2rgb`.
unfoldable pub sector : ℕ → ℕ → ℕ → ℕ → ℕ → Crgb
sector region v p q t =
    if region == 0
    then record { r = v; g = t; b = p }
    else if region == 1
    then record { r = q; g = v; b = p }
    else if region == 2
    then record { r = p; g = v; b = t }
    else if region == 3
    then record { r = p; g = q; b = v }
    else if region == 4
    then record { r = t; g = p; b = v }
    else record { r = v; g = p; b = q }

unfoldable pub hsv2rgb : Chsv → Crgb
unfolding gamma8 sector
hsv2rgb hsv =
    if hsv.s == 0
    then record { r = gamma8 hsv.v; g = gamma8 hsv.v; b = gamma8 hsv.v }
    else let region = u8 (hsv.h / 43) in
      let remainder = u8 ((hsv.h - region * 43) * 6) in
      let p = u8 (hsv.v * (255 - hsv.s) / 256) in
      let q = u8 (hsv.v * (255 - hsv.s * remainder / 256) / 256) in
      let t = u8 (hsv.v * (255 - hsv.s * (255 - remainder) / 256) / 256) in
      let rgb = sector region hsv.v p q t in
      record { r = gamma8 rgb.r; g = gamma8 rgb.g; b = gamma8 rgb.b }

-- `fadeColor`
unfoldable pub fade_color : Crgb → ℕ → Crgb
unfolding scale8_rgb
fade_color rgb factor = scale8_rgb rgb (255 - factor)
