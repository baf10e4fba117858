-- ===== src/Proc/Maps.antt =====
-- crates/ludex-daemon/src/proc/maps.rs: the graphics libraries that a process has mapped.
use ludex.Base.{
  ℕ, zero, suc, Bool, true, false, not, ◌&&◌, ◌||◌, Option, none, some, List, [], ◌∷◌, String, any,
  where_rows, nat_beq, if◌then◌else◌,
}
use Prim.Native.Char.{Char, code}
use ludex.Text.{is_whitespace, is_empty, trim, file_name}
use ludex.Text.Search.{lines}
use ludex.Gate.{GraphicsLibraries, no_libraries}
use ludex.Enrich.Lutris.{lower, same_ignoring_case}

-- The text up to the first whitespace, and what stands behind that.
abbrev pub grown_head : Char → String × Option String → String × Option String
grown_head c (head, tail) = (String.◌∷◌ c head, tail)

unfoldable pub cut_whitespace : String → String × Option String
cut_whitespace String.[] = (String.[], none)
cut_whitespace (String.◌∷◌ c s) =
    let later = cut_whitespace s in
    if is_whitespace (code c) then (String.[], some s) else grown_head c later

-- `splitn(n + 1, char::is_whitespace)`.
unfoldable pub splitn : ℕ → String → List String
unfolding cut_whitespace
splitn zero s = s ∷ []
splitn (suc n) s =
    let cut = cut_whitespace s in cut.0 ∷ (elim cut.1 [ none ↦ [] | some tail ↦ splitn n tail ])

abbrev pub sixth : List String → Option String
sixth (addr ∷ perms ∷ offset ∷ dev ∷ inode ∷ path ∷ rest) =
    if is_empty (trim path) then none else some (trim path)
sixth _ = none

-- `pathname_column`.
unfoldable pub pathname_column : String → Option String
unfolding splitn trim
pathname_column line = sixth (where_rows (λ s. not (is_empty s)) (splitn 5 line))

-- `starts_with` and `contains`, after `to_ascii_lowercase`, of a pattern in lower case.
unfoldable pub lower_starts_with : String → String → Bool
lower_starts_with String.[] s = true
lower_starts_with (String.◌∷◌ p ps) String.[] = false
lower_starts_with (String.◌∷◌ p ps) (String.◌∷◌ c s) =
    nat_beq (code p) (lower (code c)) && lower_starts_with ps s

unfoldable pub lower_contains : String → String → Bool
unfolding lower_starts_with
lower_contains pattern String.[] = is_empty pattern
lower_contains pattern (String.◌∷◌ c s) =
    lower_starts_with pattern (String.◌∷◌ c s) || lower_contains pattern s

abbrev pub wine_dlls : List String
wine_dlls = "d3d8.dll" ∷ "d3d9.dll" ∷ "d3d10.dll" ∷ "d3d11.dll" ∷ "d3d12.dll" ∷ "dxgi.dll" ∷ []

abbrev pub name_of : String → Option String → String
name_of path none = path
name_of path (some name) = name

abbrev pub is_opengl : String → Bool
is_opengl name =
    lower_starts_with "libgl.so" name
    || lower_starts_with "libglx.so" name
    || lower_starts_with "libegl.so" name

abbrev pub is_translation : String → Bool
is_translation name =
    lower_contains "dxvk" name
    || lower_contains "vkd3d" name
    || lower_contains "wined3d" name
    || any (λ dll. same_ignoring_case name dll) wine_dlls

abbrev pub classify_name : String → GraphicsLibraries → GraphicsLibraries
classify_name name g = record {
  opengl = g.opengl || is_opengl name;
  vulkan = g.vulkan || lower_starts_with "libvulkan.so" name;
  sdl = g.sdl || lower_starts_with "libsdl" name;
  directx_via_proton = g.directx_via_proton || is_translation name;
}

-- `classify`.
unfoldable pub classify : String → GraphicsLibraries → GraphicsLibraries
unfolding file_name lower_starts_with lower_contains same_ignoring_case
classify path g = classify_name (name_of path (file_name path)) g

abbrev pub classify_line : Option String → GraphicsLibraries → GraphicsLibraries
classify_line none g = g
classify_line (some path) g = classify path g

abbrev pub classify_lines : List String → GraphicsLibraries → GraphicsLibraries
classify_lines [] g = g
classify_lines (line ∷ rest) g = classify_lines rest (classify_line (pathname_column line) g)

-- `parse`.
pub parse : String → GraphicsLibraries
unfolding lines pathname_column classify
parse maps = classify_lines (lines maps) no_libraries
