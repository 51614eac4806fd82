-- ===== src/Wifi/Blacklist.antt =====
-- The blacklist of dead access points in RTC memory, end/arduino/wifi_session.cpp.
use gik_view.Prelude.{
  ℕ, zero, suc, ◌+◌, ◌-◌, ◌≤◌, ◌<◌, ◌≡◌, Bool, true, false, ◌&&◌, ◌||◌, not, List, [], ◌∷◌, ◌++◌,
  Bytes, length, take, drop, set, ltb, ◌==◌, if◌then◌else◌,
}
pub mod View
pub mod Lookup

abbrev pub rtc_magic : ℕ
rtc_magic = 0x42424C31

abbrev pub bl_cap : ℕ
bl_cap = 8

-- `memcmp(a, b, 6) == 0` on addresses of six bytes.
unfoldable pub bytes_eq : Bytes → Bytes → Bool
bytes_eq [] [] = true
bytes_eq [] (y ∷ ys) = false
bytes_eq (x ∷ xs) [] = false
bytes_eq (x ∷ xs) (y ∷ ys) = x == y && bytes_eq xs ys

-- `struct Bl`: `mac` has eight places, of which the first `count` are in use, oldest first.
pub record Bl : Type 0 where
  pub magic : ℕ
  pub count : ℕ
  pub mac : List Bytes

-- `s_bl`, and what RTC user memory holds.
pub record Store : Type 0 where
  pub s_bl : Bl
  pub rtc : Bl

unfoldable pub bl_load : Store → Store
bl_load s =
    if not (s.rtc.magic == rtc_magic) || ltb bl_cap s.rtc.count
    then record s { s_bl = record { magic = rtc_magic; count = 0; mac = s.rtc.mac } }
    else record s { s_bl = s.rtc }

unfoldable pub bl_save : Store → Store
bl_save s = record s { rtc = s.s_bl }

-- `for (i = 0; i < count; i++)`
unfoldable pub listed : ℕ → List Bytes → Bytes → Bool
unfolding bytes_eq
listed zero slots mac = false
listed (suc count) [] mac = false
listed (suc count) (m ∷ slots) mac = if bytes_eq m mac then true else listed count slots mac

unfoldable pub bl_has : Bytes → Store → Bool
unfolding listed
bl_has mac s = listed s.s_bl.count s.s_bl.mac mac

-- `memmove(mac[0], mac[1], 7 * 6)`
unfoldable pub shift_slots : List Bytes → List Bytes
shift_slots slots = take 7 (drop 1 slots) ++ drop 7 slots

unfoldable pub bl_push : Bytes → Bl → Bl
unfolding shift_slots
bl_push mac b =
    if ltb b.count bl_cap
    then record b { count = b.count + 1; mac = set b.mac b.count mac }
    else record b { mac = set (shift_slots b.mac) 7 mac }

unfoldable pub bl_add : Bytes → Store → Store
unfolding bl_has bl_push bl_save
bl_add mac s = if bl_has mac s then s else bl_save (record s { s_bl = bl_push mac s.s_bl })

-- `s_bl.count = 0; bl_save();`
unfoldable pub bl_clear : Store → Store
unfolding bl_save
bl_clear s =
    bl_save (record s { s_bl = record { magic = s.s_bl.magic; count = 0; mac = s.s_bl.mac } })
