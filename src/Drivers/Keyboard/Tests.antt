-- ===== src/Drivers/Keyboard/Tests.antt =====
-- Runs of the model of the keyboard, and its theorems at concrete inputs.
use wandos.Base.{◌≡◌, refl, [], ◌∷◌}
use wandos.Drivers.Keyboard.{
  at_boot, keyboard_init, scancode_to_ascii, init_normal_scancode_map, init_shift_scancode_map,
  assign,
}
use wandos.Drivers.Keyboard.Laws.{type_all}

-- The keys for `a`, for shift with `a`, and for shift with `x`, which gives an `N`.
typed :
    (type_all (keyboard_init at_boot) (0x1E ∷ 0x2A ∷ 0x1E ∷ 0x2D ∷ [])).0 ≡ 97 ∷ 0 ∷ 65 ∷ 78 ∷ []
unfolding type_all scancode_to_ascii keyboard_init init_normal_scancode_map init_shift_scancode_map
    assign
typed = refl
