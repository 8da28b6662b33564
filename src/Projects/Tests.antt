-- ===== src/Projects/Tests.antt =====
-- A few folders, and the theorems about projects at them.
use investment_backend.Base.{
  ◌≡◌, refl, ap, true, false, ◌||◌, none, some, List, [], ◌∷◌, ◌++◌, is_empty,
}
use investment_backend.Base.Exec.{ok, err}
use investment_backend.Store.{ConversationKind}
use investment_backend.Projects.Text.{Text, is_space, slash, backslash, rstrip, split}
use investment_backend.Projects.Paths.{
  reserved_name, empty_or_dots, lower_ascii, lower_letters, clean_relative_path, is_windows_root,
  is_reserved,
}
use investment_backend.Projects.Workspaces.{
  project_dir, separates, split_under_roots, clean_title, default_project_title,
}
use investment_backend.Projects.Modes.{
  turn_settings, thread_settings, is_hands_on, Settings, workspace_write,
}
use investment_backend.Projects.Cleaning.{clean_relative_path_again}
use investment_backend.Projects.Placement.{
  walk, clean_relative_path_stays, LowersAround, split_under_roots-project_dir,
}
use investment_backend.Projects.Permissions.{
  IsConfined, turn_settings-IsConfined, as_thread, turn_settings-thread_settings,
}

-- ` s/a/ `, `s/a` and `s\a`
abbrev raw : Text
raw = 32 ∷ 115 ∷ 47 ∷ 97 ∷ 47 ∷ 32 ∷ []

abbrev clean : Text
clean = 115 ∷ 47 ∷ 97 ∷ []

-- `C:\W\`
abbrev root : Text
root = 67 ∷ 58 ∷ 92 ∷ 87 ∷ 92 ∷ []

cleans : clean_relative_path (some raw) ≡ ok clean
unfolding clean_relative_path
cleans = refl

-- `a/../b`
goes_up : clean_relative_path (some (97 ∷ 47 ∷ 46 ∷ 46 ∷ 47 ∷ 98 ∷ [])) ≡ err empty_or_dots
unfolding clean_relative_path
goes_up = refl

-- `CON.txt`
device : clean_relative_path (some (67 ∷ 79 ∷ 78 ∷ 46 ∷ 116 ∷ 120 ∷ 116 ∷ [])) ≡ err reserved_name
unfolding clean_relative_path is_reserved
device = refl

-- A workspace at `/` contains nothing but itself.
below_slash : split_under_roots lower_letters (47 ∷ 97 ∷ []) ((47 ∷ []) ∷ []) ≡ ok none
unfolding split_under_roots
below_slash = refl

-- The longest root wins.
longest :
    split_under_roots lower_letters
      (47 ∷ 97 ∷ 47 ∷ 98 ∷ 47 ∷ 99 ∷ [])
      ((47 ∷ 97 ∷ []) ∷ (47 ∷ 97 ∷ 47 ∷ 98 ∷ []) ∷ [])
    ≡ ok (some (47 ∷ 97 ∷ 47 ∷ 98 ∷ [], 99 ∷ []))
unfolding split_under_roots
longest = refl

titles : clean_title (some (32 ∷ 97 ∷ 32 ∷ 32 ∷ 98 ∷ [])) ≡ some (97 ∷ 32 ∷ 98 ∷ [])
unfolding clean_title is_space
titles = refl

project_title : default_project_title clean root ≡ 97 ∷ []
unfolding default_project_title
project_title = refl

lower_letters-LowersAround : LowersAround lower_letters
lower_letters-LowersAround = record { around = around }
  where
    around :
        (a b : Text)
        → lower_letters (a ++ (backslash ∷ b)) ≡ lower_letters a ++ (backslash ∷ lower_letters b)
    around [] b = refl
    around (c ∷ a) b = ap (λ (t : Text). lower_ascii c ∷ t) (around a b)

more_than_separators : is_empty (rstrip (separates (is_windows_root root)) root) ≡ false
unfolding is_windows_root
more_than_separators = refl

clean_relative_path_again_example : clean_relative_path (some clean) ≡ ok clean
clean_relative_path_again_example = clean_relative_path_again raw clean cleans

clean_relative_path_stays_example :
    (below : List Text) × (walk ((87 ∷ []) ∷ []) (split slash clean) ≡ ((87 ∷ []) ∷ []) ++ below)
clean_relative_path_stays_example = clean_relative_path_stays raw clean ((87 ∷ []) ∷ []) cleans

split_under_roots-project_dir_example :
    split_under_roots lower_letters (project_dir root clean) (root ∷ []) ≡ ok (some (root, clean))
split_under_roots-project_dir_example =
    split_under_roots-project_dir lower_letters root raw clean lower_letters-LowersAround
      more_than_separators cleans (λ e. cc)

abbrev at_work : Settings
at_work = record {
  environments = (5, 47 ∷ 97 ∷ []) ∷ [];
  cwd = some (47 ∷ 97 ∷ []);
  sandbox_policy = workspace_write [] false;
  approval = "never";
}

works :
    turn_settings ConversationKind.work (some (47 ∷ 97 ∷ [])) (some 5) true (some "never") false
    ≡ ok at_work
unfolding turn_settings
works = refl

turn_settings-IsConfined_example :
    IsConfined (some (47 ∷ 97 ∷ [])) (some 5) (is_hands_on ConversationKind.work || false) at_work
turn_settings-IsConfined_example =
    turn_settings-IsConfined ConversationKind.work (some (47 ∷ 97 ∷ [])) (some 5) true
      (some "never") false at_work works

turn_settings-thread_settings_example :
    as_thread
      (some "m")
      (turn_settings ConversationKind.chat (some (47 ∷ 97 ∷ [])) (some 5) true none false)
    ≡ thread_settings ConversationKind.chat (some (47 ∷ 97 ∷ [])) (some 5) none (some "m")
turn_settings-thread_settings_example =
    turn_settings-thread_settings ConversationKind.chat (some (47 ∷ 97 ∷ [])) (some 5) none
      (some "m")
