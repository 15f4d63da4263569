-- ===== src/Shared/Utf8.antt =====
-- Go's `utf8.ValidString`: a scan that remembers how many continuation bytes are due, and the range
-- of the next one.
use Prim.Native.Nat.{ℕ, zero, suc}
use mathlib.Core.Bool.{Bool, false, ◌&&◌}
use mathlib.Core.Option.{Option, none, some}
use mathlib.Core.List.{[], ◌∷◌}
use power_manage.Shared.Tests.{leb, ltb, ◌==◌, if◌then◌else◌}
use power_manage.Shared.Bytes.{Bytes}

record Due : Type 0 where
  count : ℕ
  low : ℕ
  high : ℕ

abbrev due : ℕ → ℕ → ℕ → Option Due
due count low high = some (record { count = count; low = low; high = high })

abbrev between : ℕ → ℕ → ℕ → Bool
between low high c = leb low c && leb c high

-- The first byte of a character.
first_byte : ℕ → Option Due
first_byte c =
    if ltb c 0x80
    then due 0 0x80 0xbf
    else (if between 0xc2 0xdf c
        then due 1 0x80 0xbf
        else (if c == 0xe0
            then due 2 0xa0 0xbf
            else (if c == 0xed
                then due 2 0x80 0x9f
                else (if between 0xe1 0xef c
                    then due 2 0x80 0xbf
                    else (if c == 0xf0
                        then due 3 0x90 0xbf
                        else (if between 0xf1 0xf3 c
                            then due 3 0x80 0xbf
                            else (if c == 0xf4 then due 3 0x80 0x8f else none)))))))

next_byte : ℕ → Due → ℕ → Option Due
unfolding first_byte
next_byte zero d c = first_byte c
next_byte (suc k) d c = if between d.low d.high c then due k 0x80 0xbf else none

scan : Due → Bytes → Bool
unfolding next_byte
scan d [] = d.count == 0
scan d (c ∷ cs) = elim (next_byte d.count d c) [ none ↦ false | some e ↦ scan e cs ]

unfoldable pub valid_utf8 : Bytes → Bool
unfolding scan
valid_utf8 s = scan (record { count = 0; low = 0x80; high = 0xbf }) s
