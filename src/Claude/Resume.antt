-- ===== src/Claude/Resume.antt =====
-- internal/claude/resume.go: the command that attaches a terminal to a run's session.
use burnrate.Prelude.{ℕ, ◌≡◌, refl, sym, ap, ◌∙◌, false, List, [], ◌∷◌, ◌++◌, arith}
use burnrate.Prelude.Tests.{◌==◌, if◌then◌else◌}
use burnrate.Prelude.Text.{Text, codes, no_text}

pub record ResumeTarget : Type 0 where
  pub session_id : Text
  pub work_dir : Text
  pub config_dir : Text
  pub token_command : Text

-- `strings.ReplaceAll(s, "'", `'\''`)`
unfoldable pub escape_quotes : Text → Text
escape_quotes [] = []
escape_quotes (c ∷ cs) =
    let rest = escape_quotes cs in if c == 39 then 39 ∷ 92 ∷ 39 ∷ 39 ∷ rest else c ∷ rest

-- `shellQuote`
unfoldable pub shell_quote : Text → Text
unfolding escape_quotes
shell_quote s = 39 ∷ escape_quotes s ++ 39 ∷ []

-- " && " and " " before the rest of the command.
abbrev and_then : Text → Text
and_then rest = 32 ∷ 38 ∷ 38 ∷ 32 ∷ rest

abbrev space : Text → Text
space rest = 32 ∷ rest

abbrev cd_part : Text → Text → Text
cd_part [] rest = rest
cd_part (c ∷ cs) rest = codes "cd " ++ shell_quote (c ∷ cs) ++ and_then rest

abbrev token_part : Text → Text → Text
token_part [] rest = rest
token_part (c ∷ cs) rest = codes "CLAUDE_CODE_OAUTH_TOKEN=\"$(" ++ (c ∷ cs) ++ codes ")\" " ++ rest

abbrev config_part : Text → Text → Text → Text
config_part [] token_command rest = rest
config_part (c ∷ cs) token_command rest =
    codes "CLAUDE_CONFIG_DIR=" ++ shell_quote (c ∷ cs) ++ space (token_part token_command rest)

-- `ResumeCommand`
unfoldable pub resume_command : ResumeTarget → Text
unfolding shell_quote
resume_command t =
    if no_text t.session_id
    then []
    else cd_part t.work_dir (
        config_part t.config_dir t.token_command
          (codes "claude --resume " ++ shell_quote t.session_id))

-- How a shell takes a line apart at unquoted spaces: single quotes keep what is between them, and a
-- backslash outside of them keeps the next character.
pub data Mode : Type 0 where
  bare quoted escaped : Mode

abbrev push : ℕ → List Text → List Text
push c [] = (c ∷ []) ∷ []
push c (w ∷ ws) = (c ∷ w) ∷ ws

unfoldable pub words : Mode → Text → List Text
words m [] = [] ∷ []
words Mode.bare (c ∷ cs) =
    let next = words Mode.bare cs in
    if c == 32
    then [] ∷ next
    else if c == 39
    then words Mode.quoted cs
    else if c == 92
    then words Mode.escaped cs
    else push c next
words Mode.quoted (c ∷ cs) =
    let next = words Mode.quoted cs in if c == 39 then words Mode.bare cs else push c next
words Mode.escaped (c ∷ cs) = push c (words Mode.bare cs)

abbrev prepend : Text → List Text → List Text
prepend [] ws = ws
prepend (c ∷ cs) ws = push c (prepend cs ws)

prepend-empty_word : (s : Text) (ws : List Text) → prepend s ([] ∷ ws) ≡ s ∷ ws
prepend-empty_word [] ws = refl
prepend-empty_word (c ∷ cs) ws = rw (prepend-empty_word cs ws) refl

append_assoc : (s t u : Text) → (s ++ t) ++ u ≡ s ++ (t ++ u)
append_assoc [] t u = refl
append_assoc (c ∷ s) t u = ap (λ l. c ∷ l) (append_assoc s t u)

words-escape_quotes :
    (s rest : Text)
    → words Mode.quoted (escape_quotes s ++ 39 ∷ rest) ≡ prepend s (words Mode.bare rest)
unfolding words escape_quotes
words-escape_quotes [] rest = refl
words-escape_quotes (c ∷ cs) rest = ground (arith, words-escape_quotes cs rest)

-- A quoted text is one piece of a word, whatever it holds.
words-shell_quote :
    (s rest : Text) → words Mode.bare (shell_quote s ++ rest) ≡ prepend s (words Mode.bare rest)
unfolding words shell_quote
words-shell_quote s rest =
    ap (words Mode.quoted) (append_assoc (escape_quotes s) (39 ∷ []) rest)
    ∙ words-escape_quotes s rest

-- A quoted text is a word of its own between spaces, and at the end.
words-shell_quote-space :
    (s rest : Text) → words Mode.bare (shell_quote s ++ 32 ∷ rest) ≡ s ∷ words Mode.bare rest
unfolding words
words-shell_quote-space s rest =
    words-shell_quote s (32 ∷ rest) ∙ prepend-empty_word s (words Mode.bare rest)

append_nil : (s : Text) → s ++ [] ≡ s
append_nil [] = refl
append_nil (c ∷ cs) = ap (λ l. c ∷ l) (append_nil cs)

words-shell_quote-end : (s : Text) → words Mode.bare (shell_quote s) ≡ s ∷ []
unfolding words
words-shell_quote-end s =
    ap (words Mode.bare) (sym (append_nil (shell_quote s)))
    ∙ words-shell_quote s []
    ∙ prepend-empty_word s []

-- The words that a shell is to read.
abbrev pub cd_words : Text → List Text → List Text
cd_words [] ws = ws
cd_words (c ∷ cs) ws = codes "cd" ∷ (c ∷ cs) ∷ codes "&&" ∷ ws

abbrev pub config_words : Text → List Text → List Text
config_words [] ws = ws
config_words (c ∷ cs) ws = (codes "CLAUDE_CONFIG_DIR=" ++ c ∷ cs) ∷ ws

abbrev push_all : Text → List Text → List Text
push_all [] ws = ws
push_all (c ∷ cs) ws = push c (push_all cs ws)

words-cd_part :
    (dir rest : Text) → words Mode.bare (cd_part dir rest) ≡ cd_words dir (words Mode.bare rest)
unfolding words
words-cd_part [] rest = refl
words-cd_part (c ∷ cs) rest =
    ap (λ ws. codes "cd" ∷ ws) (words-shell_quote-space (c ∷ cs) (38 ∷ 38 ∷ 32 ∷ rest))

words-config_part :
    (dir rest : Text)
    → words Mode.bare (config_part dir [] rest) ≡ config_words dir (words Mode.bare rest)
unfolding words
words-config_part [] rest = refl
words-config_part (c ∷ cs) rest =
    ap (push_all (codes "CLAUDE_CONFIG_DIR=")) (words-shell_quote-space (c ∷ cs) rest)

module _ (t : ResumeTarget) where
  -- Without a token command, a shell reads the command for a session as it is meant, whatever the
  -- session, the directory and the account's directory hold, spaces and quotes included.
  pub words-resume_command :
      no_text t.session_id ≡ false
      → t.token_command ≡ []
      → words Mode.bare (resume_command t)
        ≡ cd_words t.work_dir
            (config_words t.config_dir (codes "claude" ∷ codes "--resume" ∷ t.session_id ∷ []))
  unfolding resume_command words
  words-resume_command h k =
      let rest = codes "claude --resume " ++ shell_quote t.session_id in
      ap (words Mode.bare) (unset h k)
      ∙ words-cd_part t.work_dir (config_part t.config_dir [] rest)
      ∙ ap (cd_words t.work_dir) (words-config_part t.config_dir rest)
      ∙ ap
          (λ ws.
            cd_words t.work_dir
              (config_words t.config_dir (codes "claude" ∷ codes "--resume" ∷ ws)))
          (words-shell_quote-end t.session_id)
    where
      unset :
          no_text t.session_id ≡ false
          → t.token_command ≡ []
          → resume_command t
            ≡ cd_part t.work_dir
                (config_part t.config_dir [] (codes "claude --resume " ++ shell_quote t.session_id))
      unset h k = rw (h, resume_command) (rw k refl)
