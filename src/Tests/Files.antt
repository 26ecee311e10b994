-- ===== src/Tests/Files.antt =====
-- A markdown file with a heading, a fence and a heading without a body. UTF-8 is ASCII here.
use rag_knowledge_platform_f.Prelude.{ℕ, false, Option, some, List, refl}
use rag_knowledge_platform_f.Text.{Text, codes}
use rag_knowledge_platform_f.Text.Stripped.{line_words}
use rag_knowledge_platform_f.Parsers.{splitlines, parse_markdown}
use rag_knowledge_platform_f.Parsers.Markdown.{body_lines, Parsed, parse_markdown-Parsed}

abbrev file : Text
file = codes "Intro here.\n# Deploy ##\n\nRun it.\n```\n# not a heading\n```\n## TLS\n"

abbrev utf8 : List ℕ → Option Text
utf8 raw = some raw

parse_markdown-Parsed_example :
    Parsed (line_words (body_lines false (splitlines file))) (parse_markdown utf8 file)
parse_markdown-Parsed_example = parse_markdown-Parsed utf8 file file refl
