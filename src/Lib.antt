-- ===== src/Lib.antt =====
-- twister-aws emulates a few AWS services on one machine: a router (internal/awsserver) checks the
-- signature of a request and passes it to a service, and each service keeps its state in memory, in
-- files below the data directory, or both. This library models the stores and the services, one
-- module for each, with the theorems that make them correct.
--
-- Base: texts as lists of bytes, maps as association lists, dates, integers, files, and the parts of
--   Go's package `strings` that the program uses.
-- Region: internal/s3buckets/region.go (NormalizeRegion, IsValidRegionSegment). The secret store and
--   the parameter store repeat NormalizeRegion word for word.
-- SecretStore: internal/secretstore. `Store` is the map byKey, `put` is putLocked,
--   `lookup_in_region` LookupInRegion, `parse_name_from_secret_id` ParseNameFromSecretID;
--   SecretStore.Files has LoadSecretsCSV, LoadSecretsJSON, UpsertPersist and ReloadFromFiles.
-- SecretsManager: internal/secretsmanager/service.go, on top of the secret store; `get_secret_value`
--   and `create_secret` are the two handlers.
-- ParamStore: internal/paramstore, in the same shape, with NameAndRegionFromID.
-- Ssm: internal/ssm/service.go, on top of the parameter store; `get_parameter` and `put_parameter`;
--   Ssm.Reloads is about a reload of the file in between.
-- Sqs: internal/sqs/store.go and names.go. `Manager` is Manager with the files below its root; an
--   operation takes the manager and gives the manager after it, or an error.
-- Sqs.Requests: internal/sqs/handler.go and json.go, on top of Manager. `handle_request` is Handle; Forms
--   and Json have the handlers of the two protocols, Polling the loop of ReceiveMessage, which asks 102
--   times at most: 20 seconds of sleeps of 200 milliseconds, and the attempts at both ends.
-- Ec2: internal/ec2. `World` is Store with its file and the docker commands that were run; Query is
--   parse.go, Catalog catalog.go, Docker docker.go; Network, Launch, States, Start and Describe are
--   the handlers of service_actions.go, and Handle is the dispatch of service.go. Ec2.Steps is the
--   specification, a step relation on the state, and Ec2.Refines shows that the handlers take its
--   steps; Ec2.Guarantees draws the consequences for sequences of requests, Ec2.Durable is about the state
--   file, and Ec2.Termination, Describe.Listed and Described about TerminateInstances and DescribeInstances.
-- Sigv4: internal/sigv4. `verify` is Verify and `canonical_query` canonicalQueryV4; Sigv4.Fields has the
--   parsers and the canonical request, Sigv4.Clock the date. `Crypto` is SHA-256 and HMAC, and `Request`
--   what Verify reads of the request, as net/http gives it.
-- Credentials: internal/credentials. `Provider` is Provider with its path; the file is an argument, as
--   the rows that csv.Reader gives. Its `verify_request` calls Sigv4.
-- Iam: internal/iam/handler.go on top of Credentials. `handle_iam` is Handle.
-- Router: internal/awsserver/router.go. `route` is ServeHTTP up to the call of the service that it chooses;
--   Router.Primary is primary.go, the choice between S3 and the services that `route` serves;
--   Router.Build is NewRouter, Router.Refresh refresh.go, which reloads every store.
-- Lambda: internal/lambda. Registry is registry.go, Mappings event_source.go, Docker docker.go; Handlers,
--   Events and Dispatch are service.go, with `handle_lambda` for Handle. What docker answers, the texts of
--   errors and the order of a map's environment are arguments.
-- S3: internal/s3buckets. `Manager` is Manager with the directories and files below its root, by their paths;
--   Files is what the package asks of the file system, Buckets store.go, Objects object.go, Listing list.go,
--   Notify bucket_notify.go and s3event.go; Rest has `handle_s3_rest` for HandleS3REST, and Sink the sqsSink of
--   cmd/twister/main.go, which hands the events of a PUT to Sqs.
-- Tests: the theorems applied to small inputs.
--
-- Loops over lists are structural recursions. The loops of Ec2.Query count up to the bound that the
-- source writes (99 or 49), which is their fuel, and a number is printed with twenty digits at most,
-- enough for 64 bits. The version of a parameter is an int of 64 bits, and the successor that PutParameter
-- gives it wraps; where the range of Go's int is checked, for ports, the check is written out. What time.Parse
-- and strconv.Atoi read back is assumed of the years 0 to 9999 and of numbers of 64 bits only.
--
-- Base.Json is the conversion of a text that encoding/json writes: bytes that are no UTF-8 become U+FFFD. It is
-- applied to the bodies of messages in a queue's file and to every text of the state file of EC2. The other
-- JSON files hold what was read as JSON or XML or checked to be ASCII, which it leaves as it is.
--
-- A nil map or receiver is the empty one. A handler's reply is its status and its __type or its
-- body's fields; the message texts and the encoding as JSON are left out. Random ids, the clock's
-- readings, the digests (SHA-256, MD5), the date formats and the success of a write are arguments.
-- A file that is written beside its place and renamed is there as a whole or not at all; the file of an object
-- of S3 is written in place, and `fill_file` may leave a front part of it.
-- A lock is held for the whole of each operation that takes one, so an operation is one step. A
-- handler of EC2 takes the lock more than once; here the requests come one after another. What
-- docker answers and whether the disk can be written are functions in the record Env.
-- A CSV file stands for the rows that Go's csv.Reader gives back for it. Case and blanks are those of
-- ASCII: ToLower, EqualFold and TrimSpace leave the bytes of other characters as they are.
--
-- Not modelled: /health and the writing of JSON in internal/awsserver, the ranges and conditions of http.ServeFile
-- (its redirect of index.html is), the XML of SQS, IAM,
-- EC2 and S3, the configuration and the commands but for the sink.
pub mod Base
pub mod Region
pub mod SecretStore
pub mod SecretsManager
pub mod ParamStore
pub mod Ssm
pub mod Sqs
pub mod Ec2
pub mod Sigv4
pub mod Credentials
pub mod Iam
pub mod Lambda
pub mod Router
pub mod S3
pub mod Tests
