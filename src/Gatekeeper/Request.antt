-- ===== src/Gatekeeper/Request.antt =====
-- internal/gatekeeper/request.go: the facts that a merge is decided by.
use machinist.Base.{
  Text, Bool, true, false, not, Option, none, some, List, [], ◌∷◌, is_empty, map, if◌then◌else◌,
  codes, trim_space, trim_prefix,
}
use machinist.Base.Int.{ℤ, is_positive}
use machinist.Review.Types.{Verdict, Finding}
use machinist.Review.Independence.{Party}

-- A git tree mode; `other` is any string that is none of the four.
pub data FileMode : Type 0 where
  mode_file mode_executable mode_symlink mode_submodule : FileMode
  other : Text → FileMode

abbrev pub mode_valid : FileMode → Bool
mode_valid mode_file = true
mode_valid mode_executable = true
mode_valid mode_symlink = true
mode_valid mode_submodule = true
mode_valid (other t) = false

abbrev pub is_mode_file : FileMode → Bool
is_mode_file mode_file = true
is_mode_file mode_executable = false
is_mode_file mode_symlink = false
is_mode_file mode_submodule = false
is_mode_file (other t) = false

pub record ChangedFile : Type 0 where
  pub path : Text
  pub mode : FileMode

pub data Risk : Type 0 where
  risk_low risk_medium risk_high : Risk
  other : Text → Risk

abbrev pub risk_valid : Risk → Bool
risk_valid risk_low = true
risk_valid risk_medium = true
risk_valid risk_high = true
risk_valid (other t) = false

abbrev pub is_risk_high : Risk → Bool
is_risk_high risk_high = true
is_risk_high risk_low = false
is_risk_high risk_medium = false
is_risk_high (other t) = false

abbrev pub risk_text : Risk → Text
risk_text risk_low = codes "risk-low"
risk_text risk_medium = codes "risk-medium"
risk_text risk_high = codes "risk-high"
risk_text (other t) = t

pub record ClosingIssue : Type 0 where
  pub number : ℤ
  pub risk : Risk
  pub human_required : Bool

pub record ChecksState : Type 0 where
  pub required : List Text
  pub passing : List Text
  pub strict : Bool
  pub merge_state_status : Text

pub record Review : Type 0 where
  pub verdict : Verdict
  pub findings : List Finding
  pub head_sha : Text
  pub author : Party
  pub reviewer : Party

pub record Request : Type 0 where
  pub repository : Text
  pub pull_request : ℤ
  pub head_sha : Text
  pub files : List ChangedFile
  pub closing_issues : List ClosingIssue
  pub closing_issues_match_intent : Bool
  pub checks : ChecksState
  pub review : Review
  pub owner_named : Bool
  pub protected_paths : List Text
  pub protected_paths_unread : Bool

-- The errors of Valid.
pub data RequestError : Type 0 where
  repository_unknown pull_request_unknown head_unknown files_unknown path_missing : RequestError
  mode_unread : Text → FileMode → RequestError

-- The loop over the changed files.
unfoldable pub check_files : List ChangedFile → Option RequestError
check_files [] = none
check_files (file ∷ files) =
    let rest = check_files files in
    if is_empty (trim_space file.path)
    then some path_missing
    else if not (mode_valid file.mode)
    then some (mode_unread file.path file.mode)
    else rest

-- Request.Valid; `none` is a nil error.
unfoldable pub request_valid : Request → Option RequestError
request_valid r =
    if is_empty (trim_space r.repository)
    then some repository_unknown
    else if not (is_positive r.pull_request)
    then some pull_request_unknown
    else if is_empty (trim_space r.head_sha)
    then some head_unknown
    else if is_empty r.files
    then some files_unknown
    else check_files r.files

-- Request.paths
unfoldable pub paths : Request → List Text
paths r = map (λ (f : ChangedFile). trim_prefix (codes "./") (trim_space f.path)) r.files
