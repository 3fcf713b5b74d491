-- ===== src/NearMap/Folder.antt =====
-- `analyse_folder` and `main` of pin-NearMAP/analyse-results/src/main.rs. What the file system
-- answers is an argument.
use ndp_auto_offload.Base.{
  Bool, true, ◌++◌, Option, none, some, List, [], ◌∷◌, Outcome, ok, err, ◌>>=◌, or_err, open_failed,
  read_failed, not, if◌then◌else◌,
}
use ndp_auto_offload.Base.Words.{Profile}
use ndp_auto_offload.Text.{Text, codes, text_eq}
use ndp_auto_offload.NearMap.Analysis.{analyse_file, columns}

-- An entry of a directory, with the lines of the file if it can be opened.
pub record Entry : Type 0 where
  pub path : Text
  pub extension : Option Text
  pub contents : Option (List (Option Text))

-- `path.extension().map(|e| e != "log").unwrap_or(true)`
unfoldable pub skipped : Option Text → Bool
skipped none = true
skipped (some e) = not (text_eq e (codes "log"))

-- The body of the loop over the entries.
unfoldable pub analyse_entry : Profile → Option Entry → Outcome Text
analyse_entry p none = err read_failed
analyse_entry p (some entry) =
    let analysed = do input ← or_err open_failed entry.contents; analyse_file p entry.path input
    in if skipped entry.extension then ok [] else analysed

unfoldable pub analyse_entries : Profile → List (Option Entry) → Outcome Text
analyse_entries p [] = ok []
analyse_entries p (entry ∷ rest) = do
  rows ← analyse_entry p entry
  others ← analyse_entries p rest
  ok (rows ++ others)

-- A folder with its entries if it can be read.
unfoldable pub analyse_folder : Profile → Text × Option (List (Option Entry)) → Outcome Text
analyse_folder p (folder, listing) = do
  entries ← or_err open_failed listing
  rows ← analyse_entries p entries
  ok (folder ++ b'\n' ∷ (columns ++ b'\n' ∷ rows))

-- What `main` writes to memory_access_summary.csv, if it comes so far.
unfoldable pub summary : Profile → List (Text × Option (List (Option Entry))) → Outcome Text
summary p [] = ok []
summary p (folder ∷ rest) = do
  table ← analyse_folder p folder
  others ← summary p rest
  ok (table ++ others)
