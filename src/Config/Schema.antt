-- ===== src/Config/Schema.antt =====
-- The schema text of dcos-log/config/config.go, for the validator of JSON documents.
use dcos_log.Base.{◌++◌, Bytes, bytes}

unfoldable pub internal_json_validation_schema : Bytes
internal_json_validation_schema =
    bytes "\n"
    ++ bytes "\t{\n"
    ++ bytes "\t  \"title\": \"User config validate schema\",\n"
    ++ bytes "\t  \"type\": \"object\",\n"
    ++ bytes "\t  \"properties\": {\n"
    ++ bytes "\t    \"port\": {\n"
    ++ bytes "\t      \"type\": \"integer\",\n"
    ++ bytes "\t      \"minimum\": 1024,\n"
    ++ bytes "\t      \"maximum\": 65535\n"
    ++ bytes "\t    },\n"
    ++ bytes "\t    \"verbose\": {\n"
    ++ bytes "\t      \"type\": \"boolean\"\n"
    ++ bytes "\t    },\n"
    ++ bytes "\t    \"config\": {\n"
    ++ bytes "\t      \"type\": \"string\"\n"
    ++ bytes "\t    },\n"
    ++ bytes "\t    \"auth\": {\n"
    ++ bytes "\t      \"type\": \"boolean\"\n"
    ++ bytes "\t    },\n"
    ++ bytes "\t    \"ca-cert\": {\n"
    ++ bytes "\t      \"type\": \"string\"\n"
    ++ bytes "\t    },\n"
    ++ bytes "\t    \"timeout\": {\n"
    ++ bytes "\t      \"type\": \"string\"\n"
    ++ bytes "\t    },\n"
    ++ bytes "\t    \"role\": {\n"
    ++ bytes "\t      \"type\": \"string\",\n"
    ++ bytes "\t      \"enum\": [\"master\", \"agent\", \"agent_public\"]\n"
    ++ bytes "\t    }\n"
    ++ bytes "\t  },\n"
    ++ bytes "\t  \"required\": [\"role\"],\n"
    ++ bytes "\t  \"additionalProperties\": false\n"
    ++ bytes "\t}"
