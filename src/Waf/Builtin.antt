-- ===== src/Waf/Builtin.antt =====
-- BuiltinRules of internal/waf/builtin.go.
use cherry_waf.Base.{ℕ, String, true, List, [], ◌∷◌, codes, nat_eq, string_eq, text_eq}
use cherry_waf.Base.Int.{pos}
use cherry_waf.Waf.Types.{Rule}

-- A rule that is built in: it has no description, scores, and is enabled.
abbrev scoring : String → String → List String → String → ℕ → String → Rule
scoring id name targets pattern score severity = record {
  id = codes id;
  name = codes name;
  description = "";
  enabled = true;
  targets = targets;
  pattern = pattern;
  score = pos score;
  action = "score";
  severity = severity;
}

unfoldable pub builtin_rules : List Rule
builtin_rules =
    scoring "CWAF-100001" "SQL injection keywords" ("path" ∷ "query" ∷ "body" ∷ "cookies" ∷ [])
      "(?i)(?:\\bunion\\s+(?:all\\s+)?select\\b|\\bselect\\b.{0,80}\\bfrom\\b|\\binformation_schema\\b|\\bsleep\\s*\\(|\\bbenchmark\\s*\\(|\\bwaitfor\\s+delay\\b)"
      10 "critical"
    ∷ scoring "CWAF-100002" "SQL injection boolean or comment sequence"
        ("query" ∷ "body" ∷ "cookies" ∷ [])
        "(?i)(?:['\\\"]\\s*(?:or|and)\\s+['\\\"]?[0-9a-z_]+['\\\"]?\\s*=\\s*['\\\"]?[0-9a-z_]+|(?:--|#|/\\*)\\s*$)"
        8 "high"
    ∷ scoring "CWAF-100010" "Cross-site scripting payload"
        ("path" ∷ "query" ∷ "body" ∷ "headers" ∷ [])
        "(?i)(?:<\\s*script\\b|javascript\\s*:|data\\s*:\\s*text/html|on(?:error|load|click|mouseover|focus)\\s*=|<\\s*(?:iframe|object|embed|svg)\\b)"
        10 "critical"
    ∷ scoring "CWAF-100020" "Path traversal" ("path" ∷ "query" ∷ "body" ∷ "cookies" ∷ [])
        "(?:\\.\\.[/\\\\]){1,}|(?i)(?:/etc/passwd|/proc/self/environ|windows[/\\\\]win\\.ini)" 10
        "critical"
    ∷ scoring "CWAF-100030" "Command injection" ("query" ∷ "body" ∷ "cookies" ∷ [])
        "(?i)(?:;|\\|\\||&&|\\$\\(|`)\\s*(?:/bin/)?(?:sh|bash|dash|zsh|cmd(?:\\.exe)?|powershell|curl|wget|nc|netcat|python|perl|ruby)\\b"
        10 "critical"
    ∷ scoring "CWAF-100040" "Server-side template injection" ("query" ∷ "body" ∷ [])
        "(?s)(?:\\{\\{.{0,120}(?:config|class|mro|subclasses|system|popen).{0,120}\\}\\}|\\$\\{.{0,120}(?:jndi|runtime|exec).{0,120}\\})"
        9 "high"
    ∷ scoring "CWAF-100050" "Known vulnerability scanner user agent" ("headers" ∷ [])
        "(?i)\\b(?:sqlmap|nikto|acunetix|nessus|nuclei|masscan|gobuster|dirbuster|wpscan|zgrab)\\b"
        6 "medium"
    ∷ scoring "CWAF-100060" "Sensitive file probe" ("path" ∷ "query" ∷ [])
        "(?i)(?:^|/)(?:\\.env|\\.git/config|wp-config\\.php|id_rsa|shadow|passwd|web\\.config)(?:$|[/?])"
        10 "high"
    ∷ []
