-- ===== src/Proc/Tests.antt =====
-- Files of /proc, and the theorems at them.
use ludex.Base.{
  ℕ, ◌≡◌, refl, string_eq, nat_eq, ◌==◌, if◌then◌else◌, min, true, false, Option, none, some, List,
  [], ◌∷◌, String, sum_of,
}
use ludex.Base.Table.{lookup}
use ludex.Text.{u64_max}
use ludex.Text.Ascii.{ascii, encoded}
use ludex.Gate.{no_libraries}
use ludex.Proc.Fdinfo.{read_fdinfo}
use ludex.Proc.Fdinfo.Sums.{all_lines, memory_of, driver_of, read_fdinfo-Sums}
use ludex.Proc.Environ.{parse}
use ludex.Proc.Environ.RoundTrip.{Variable, block, set_all, free_of, parse-block}
use ludex.Proc.Tree.{parse_ppid, ancestors}
use ludex.Proc.Tree.Stat.{Process}
use ludex.Proc.Maps.{pathname_column, classify}

abbrev entries : List (Option String)
entries =
    some
      "drm-driver:\tamdgpu\ndrm-memory-vram: 1024 kB\ndrm-memory-gtt:  2 MiB\ndrm-engine-gfx: 12 ns\n"
    ∷ none
    ∷ some "pos: 0\ndrm-driver: i915\ndrm-memory-vram: 7 bytes\ndrm-engine-capacity: 4\n"
    ∷ []

summed :
    read_fdinfo entries
    ≡ record { driver = some "amdgpu"; memory_bytes = 3145735; engine_nanoseconds = 12 }
unfolding read_fdinfo
summed = refl

read_fdinfo-Sums_example :
    ((read_fdinfo entries).memory_bytes ≡ min (sum_of memory_of (all_lines entries)) u64_max)
    × ((read_fdinfo entries).driver ≡ driver_of (all_lines entries))
read_fdinfo-Sums_example = read_fdinfo-Sums entries

abbrev app_id : Variable
app_id = record {
  key = "SteamAppId";
  value = "440";
  key_bytes = encoded "SteamAppId";
  value_bytes = encoded "440";
}

abbrev home : Variable
home = record {
  key = "HOME";
  value = "/a=b";
  key_bytes = encoded "HOME";
  value_bytes = encoded "/a=b";
}

home_read : lookup "HOME" (parse ascii (block (app_id ∷ home ∷ []))) ≡ some "/a=b"
unfolding lookup parse block ascii encoded
home_read = refl

parse-block_example : parse ascii (block (app_id ∷ home ∷ [])) ≡ set_all (app_id ∷ home ∷ []) []
unfolding ascii encoded free_of
parse-block_example = parse-block ascii (app_id ∷ home ∷ []) (
  record { key = refl; value = refl; equals = refl; key_zero = refl; value_zero = refl },
  (record { key = refl; value = refl; equals = refl; key_zero = refl; value_zero = refl }, tt),
)

path_read :
    pathname_column "7f8d-7f8e r-xp 00000000 fd:01 12345            /opt/My Game/libGL.so.1 "
    ≡ some "/opt/My Game/libGL.so.1"
unfolding pathname_column
path_read = refl

anonymous : pathname_column "7f8d-7f8e rw-p 00000000 00:00 0 " ≡ none
unfolding pathname_column
anonymous = refl

dxvk_mapped :
    classify "/x/D3D11.DLL" no_libraries
    ≡ record { opengl = false; vulkan = false; sdl = false; directx_via_proton = true }
unfolding classify
dxvk_mapped = refl

nested_parens : parse_ppid "42 (a) b (c)) S 7 42 42" ≡ some 7
unfolding parse_ppid
nested_parens = refl

-- A shell, 30, started by 1, and a game that it started.
abbrev stat : ℕ → Option String
stat pid =
    if pid == 42
    then some "42 (a) b (c) S 30 42"
    else if pid == 30
    then some "30 (sh) S 1 30"
    else if pid == 1
    then some "1 (init) S 0 1"
    else none

walked : ancestors stat 9 42 ≡ 30 ∷ 1 ∷ []
unfolding ancestors
walked = refl

abbrev game : Process
game = record { comm = "a) b (c"; state = "S"; ppid = 30; fields = "42" }

abbrev shell : Process
shell = record { comm = "sh"; state = "S"; ppid = 1; fields = "30" }
