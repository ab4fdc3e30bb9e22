-- ===== src/Keyboard/Keymap.antt =====
-- The characters of the keys, as the array `keymap` of src/kernel/keyboard.c has them.
use txos.Base.{ℕ, List, [], ◌∷◌, ◌++◌, replicate, get_or}

-- The first entries, up to KEY_CLIPBOARD: alone and with shift; an entry that the source leaves out is 0.
abbrev pub typed_keys : List (ℕ × ℕ)
typed_keys =
    (0, 0)
    ∷ (27, 27)
    ∷ (49, 33)
    ∷ (50, 64)
    ∷ (51, 35)
    ∷ (52, 36)
    ∷ (53, 37)
    ∷ (54, 94)
    ∷ (55, 38)
    ∷ (56, 42)
    ∷ (57, 40)
    ∷ (48, 41)
    ∷ (45, 95)
    ∷ (61, 43)
    ∷ (8, 8)
    ∷ (9, 9)
    ∷ (113, 81)
    ∷ (119, 87)
    ∷ (101, 69)
    ∷ (114, 82)
    ∷ (116, 84)
    ∷ (121, 89)
    ∷ (117, 85)
    ∷ (105, 73)
    ∷ (0, 0)
    ∷ (112, 80)
    ∷ (91, 123)
    ∷ (93, 125)
    ∷ (10, 10)
    ∷ (0, 0)
    ∷ (97, 65)
    ∷ (115, 83)
    ∷ (100, 68)
    ∷ (102, 70)
    ∷ (103, 71)
    ∷ (104, 72)
    ∷ (106, 74)
    ∷ (107, 75)
    ∷ (108, 76)
    ∷ (59, 58)
    ∷ (39, 34)
    ∷ (96, 126)
    ∷ (0, 0)
    ∷ (92, 124)
    ∷ (122, 90)
    ∷ (120, 88)
    ∷ (99, 67)
    ∷ (118, 86)
    ∷ (98, 66)
    ∷ (110, 78)
    ∷ (109, 77)
    ∷ (44, 60)
    ∷ (46, 62)
    ∷ (47, 63)
    ∷ (0, 0)
    ∷ (42, 42)
    ∷ (0, 0)
    ∷ (32, 32)
    ∷ (0, 0)
    ∷ (0, 0)
    ∷ (0, 0)
    ∷ (0, 0)
    ∷ (0, 0)
    ∷ (0, 0)
    ∷ (0, 0)
    ∷ (0, 0)
    ∷ (0, 0)
    ∷ (0, 0)
    ∷ (0, 0)
    ∷ (0, 0)
    ∷ (0, 0)
    ∷ (55, 0)
    ∷ (56, 0)
    ∷ (57, 0)
    ∷ (45, 45)
    ∷ (52, 0)
    ∷ (53, 0)
    ∷ (54, 0)
    ∷ (43, 43)
    ∷ (49, 0)
    ∷ (50, 0)
    ∷ (51, 0)
    ∷ (48, 0)
    ∷ (46, 127)
    ∷ (0, 0)
    ∷ (0, 0)
    ∷ (0, 0)
    ∷ (0, 0)
    ∷ (0, 0)
    ∷ (0, 0)
    ∷ (0, 0)
    ∷ (0, 0)
    ∷ (0, 0)
    ∷ (0, 0)
    ∷ []

-- `keymap[]` ends at KEY_PRINT_SCREEN, 0xb7.
abbrev pub keymap : List (ℕ × ℕ)
keymap = typed_keys ++ replicate 90 (0, 0)

abbrev pub keycap : (make_code : ℕ) → ℕ × ℕ
keycap make_code = get_or keymap make_code (0, 0)
