-- ===== src/Keycodes.antt =====
-- enum sc_keycode of app/src/input_events.h and the four tables of convert_keycode in
-- app/src/keyboard_sdk.c. The values of SDL differ from each other, so that a table, which
-- app/src/util/intmap.h searches for a value, is a function. The codes of Android are numbers.
use droidctl.Base.{ℕ, Option, none, some}

pub data Keycode : Type 0 where
  key_unknown key_return key_escape key_backspace key_tab key_space key_exclaim key_quotedbl
        key_hash key_percent key_dollar key_ampersand key_quote key_leftparen key_rightparen
        key_asterisk key_plus key_comma key_minus key_period key_slash key_0 key_1 key_2 key_3 key_4
        key_5 key_6 key_7 key_8 key_9 key_colon key_semicolon key_less key_equals key_greater
        key_question key_at key_leftbracket key_backslash key_rightbracket key_caret key_underscore
        key_backquote key_a key_b key_c key_d key_e key_f key_g key_h key_i key_j key_k key_l key_m
        key_n key_o key_p key_q key_r key_s key_t key_u key_v key_w key_x key_y key_z key_capslock
        key_f1 key_f2 key_f3 key_f4 key_f5 key_f6 key_f7 key_f8 key_f9 key_f10 key_f11 key_f12
        key_printscreen key_scrolllock key_pause key_insert key_home key_pageup key_delete key_end
        key_pagedown key_right key_left key_down key_up key_kp_divide key_kp_multiply key_kp_minus
        key_kp_plus key_kp_enter key_kp_1 key_kp_2 key_kp_3 key_kp_4 key_kp_5 key_kp_6 key_kp_7
        key_kp_8 key_kp_9 key_kp_0 key_kp_period key_kp_equals key_kp_leftparen key_kp_rightparen
        key_lctrl key_lshift key_lalt key_lgui key_rctrl key_rshift key_ralt key_rgui :
      Keycode

-- `special_keys`
unfoldable pub special_keys : Keycode → Option ℕ
special_keys Keycode.key_return = some 66
special_keys Keycode.key_kp_enter = some 160
special_keys Keycode.key_escape = some 111
special_keys Keycode.key_backspace = some 67
special_keys Keycode.key_tab = some 61
special_keys Keycode.key_pageup = some 92
special_keys Keycode.key_delete = some 112
special_keys Keycode.key_home = some 122
special_keys Keycode.key_end = some 123
special_keys Keycode.key_pagedown = some 93
special_keys Keycode.key_right = some 22
special_keys Keycode.key_left = some 21
special_keys Keycode.key_down = some 20
special_keys Keycode.key_up = some 19
special_keys Keycode.key_lctrl = some 113
special_keys Keycode.key_rctrl = some 114
special_keys Keycode.key_lshift = some 59
special_keys Keycode.key_rshift = some 60
special_keys Keycode.key_lalt = some 57
special_keys Keycode.key_ralt = some 58
special_keys Keycode.key_lgui = some 117
special_keys Keycode.key_rgui = some 118
special_keys _ = none

-- `kp_nav_keys`
unfoldable pub kp_nav_keys : Keycode → Option ℕ
kp_nav_keys Keycode.key_kp_0 = some 124
kp_nav_keys Keycode.key_kp_1 = some 123
kp_nav_keys Keycode.key_kp_2 = some 20
kp_nav_keys Keycode.key_kp_3 = some 93
kp_nav_keys Keycode.key_kp_4 = some 21
kp_nav_keys Keycode.key_kp_6 = some 22
kp_nav_keys Keycode.key_kp_7 = some 122
kp_nav_keys Keycode.key_kp_8 = some 19
kp_nav_keys Keycode.key_kp_9 = some 92
kp_nav_keys Keycode.key_kp_period = some 112
kp_nav_keys _ = none

-- `alphaspace_keys`
unfoldable pub alphaspace_keys : Keycode → Option ℕ
alphaspace_keys Keycode.key_a = some 29
alphaspace_keys Keycode.key_b = some 30
alphaspace_keys Keycode.key_c = some 31
alphaspace_keys Keycode.key_d = some 32
alphaspace_keys Keycode.key_e = some 33
alphaspace_keys Keycode.key_f = some 34
alphaspace_keys Keycode.key_g = some 35
alphaspace_keys Keycode.key_h = some 36
alphaspace_keys Keycode.key_i = some 37
alphaspace_keys Keycode.key_j = some 38
alphaspace_keys Keycode.key_k = some 39
alphaspace_keys Keycode.key_l = some 40
alphaspace_keys Keycode.key_m = some 41
alphaspace_keys Keycode.key_n = some 42
alphaspace_keys Keycode.key_o = some 43
alphaspace_keys Keycode.key_p = some 44
alphaspace_keys Keycode.key_q = some 45
alphaspace_keys Keycode.key_r = some 46
alphaspace_keys Keycode.key_s = some 47
alphaspace_keys Keycode.key_t = some 48
alphaspace_keys Keycode.key_u = some 49
alphaspace_keys Keycode.key_v = some 50
alphaspace_keys Keycode.key_w = some 51
alphaspace_keys Keycode.key_x = some 52
alphaspace_keys Keycode.key_y = some 53
alphaspace_keys Keycode.key_z = some 54
alphaspace_keys Keycode.key_space = some 62
alphaspace_keys _ = none

-- `numbers_punct_keys`
unfoldable pub numbers_punct_keys : Keycode → Option ℕ
numbers_punct_keys Keycode.key_hash = some 18
numbers_punct_keys Keycode.key_percent = some 56
numbers_punct_keys Keycode.key_quote = some 75
numbers_punct_keys Keycode.key_asterisk = some 17
numbers_punct_keys Keycode.key_plus = some 81
numbers_punct_keys Keycode.key_comma = some 55
numbers_punct_keys Keycode.key_minus = some 69
numbers_punct_keys Keycode.key_period = some 56
numbers_punct_keys Keycode.key_slash = some 76
numbers_punct_keys Keycode.key_0 = some 7
numbers_punct_keys Keycode.key_1 = some 8
numbers_punct_keys Keycode.key_2 = some 9
numbers_punct_keys Keycode.key_3 = some 10
numbers_punct_keys Keycode.key_4 = some 11
numbers_punct_keys Keycode.key_5 = some 12
numbers_punct_keys Keycode.key_6 = some 13
numbers_punct_keys Keycode.key_7 = some 14
numbers_punct_keys Keycode.key_8 = some 15
numbers_punct_keys Keycode.key_9 = some 16
numbers_punct_keys Keycode.key_semicolon = some 74
numbers_punct_keys Keycode.key_equals = some 70
numbers_punct_keys Keycode.key_at = some 77
numbers_punct_keys Keycode.key_leftbracket = some 71
numbers_punct_keys Keycode.key_backslash = some 73
numbers_punct_keys Keycode.key_rightbracket = some 72
numbers_punct_keys Keycode.key_backquote = some 68
numbers_punct_keys Keycode.key_kp_1 = some 145
numbers_punct_keys Keycode.key_kp_2 = some 146
numbers_punct_keys Keycode.key_kp_3 = some 147
numbers_punct_keys Keycode.key_kp_4 = some 148
numbers_punct_keys Keycode.key_kp_5 = some 149
numbers_punct_keys Keycode.key_kp_6 = some 150
numbers_punct_keys Keycode.key_kp_7 = some 151
numbers_punct_keys Keycode.key_kp_8 = some 152
numbers_punct_keys Keycode.key_kp_9 = some 153
numbers_punct_keys Keycode.key_kp_0 = some 144
numbers_punct_keys Keycode.key_kp_divide = some 154
numbers_punct_keys Keycode.key_kp_multiply = some 155
numbers_punct_keys Keycode.key_kp_minus = some 156
numbers_punct_keys Keycode.key_kp_plus = some 157
numbers_punct_keys Keycode.key_kp_period = some 158
numbers_punct_keys Keycode.key_kp_equals = some 161
numbers_punct_keys Keycode.key_kp_leftparen = some 162
numbers_punct_keys Keycode.key_kp_rightparen = some 163
numbers_punct_keys _ = none
